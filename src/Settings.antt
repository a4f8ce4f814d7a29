-- ===== src/Settings.antt =====
-- sshvpn/settings.py. What `decouple.config` reads, the casts of `Csv()` and `bool`, and the file
-- system are parameters; a path is the text of BASE_DIR and its parts.

pub mod Loaded
use ssh_panel_vpn.Common.{
  then_some, ℕ, Bool, true, false, not, ◌&&◌, Option, none, some, List, [], ◌∷◌, ◌++◌, exists,
  if◌then◌else◌,
}
use ssh_panel_vpn.Common.Text.{Text, codes, text_eq}

-- INSTALLED_APPS
unfoldable pub installed_apps : List Text
installed_apps =
    codes "django.contrib.admin"
    ∷ codes "django.contrib.auth"
    ∷ codes "django.contrib.contenttypes"
    ∷ codes "django.contrib.sessions"
    ∷ codes "django.contrib.messages"
    ∷ codes "django.contrib.staticfiles"
    ∷ codes "rest_framework"
    ∷ codes "django_filters"
    ∷ codes "corsheaders"
    ∷ codes "django_celery_beat"
    ∷ codes "drf_spectacular"
    ∷ codes "import_export"
    ∷ codes "accounts"
    ∷ codes "servers"
    ∷ codes "plans"
    ∷ codes "api"
    ∷ []

-- MIDDLEWARE
unfoldable pub middleware : List Text
middleware =
    codes "django.middleware.security.SecurityMiddleware"
    ∷ codes "whitenoise.middleware.WhiteNoiseMiddleware"
    ∷ codes "django.contrib.sessions.middleware.SessionMiddleware"
    ∷ codes "corsheaders.middleware.CorsMiddleware"
    ∷ codes "django.middleware.common.CommonMiddleware"
    ∷ codes "django.middleware.csrf.CsrfViewMiddleware"
    ∷ codes "django.contrib.auth.middleware.AuthenticationMiddleware"
    ∷ codes "django.contrib.messages.middleware.MessageMiddleware"
    ∷ codes "django.middleware.clickjacking.XFrameOptionsMiddleware"
    ∷ []

-- AUTH_PASSWORD_VALIDATORS
unfoldable pub password_validators : List Text
password_validators =
    codes "django.contrib.auth.password_validation.UserAttributeSimilarityValidator"
    ∷ codes "django.contrib.auth.password_validation.MinimumLengthValidator"
    ∷ codes "django.contrib.auth.password_validation.CommonPasswordValidator"
    ∷ codes "django.contrib.auth.password_validation.NumericPasswordValidator"
    ∷ []

-- REST_FRAMEWORK
pub record RestFramework : Type 0 where
  pub authentication_classes : List Text
  pub permission_classes : List Text
  pub filter_backends : List Text
  pub pagination_class : Text
  pub page_size : ℕ
  pub throttle_classes : List Text
  pub throttle_rates : List (Text × Text)
  pub schema_class : Text

unfoldable pub rest_framework : RestFramework
rest_framework = record {
  authentication_classes =
      codes "rest_framework.authentication.SessionAuthentication"
      ∷ codes "rest_framework.authentication.TokenAuthentication"
      ∷ [];
  permission_classes = codes "rest_framework.permissions.IsAdminUser" ∷ [];
  filter_backends =
      codes "django_filters.rest_framework.DjangoFilterBackend"
      ∷ codes "rest_framework.filters.SearchFilter"
      ∷ codes "rest_framework.filters.OrderingFilter"
      ∷ [];
  pagination_class = codes "rest_framework.pagination.PageNumberPagination";
  page_size = 25;
  throttle_classes =
      codes "rest_framework.throttling.AnonRateThrottle"
      ∷ codes "rest_framework.throttling.UserRateThrottle"
      ∷ [];
  throttle_rates = (codes "anon", codes "30/minute") ∷ (codes "user", codes "120/minute") ∷ [];
  schema_class = codes "drf_spectacular.openapi.AutoSchema";
}

-- DATABASES, the default one
pub record Database : Type 0 where
  pub engine : Text
  pub name : Text
  pub user : Text
  pub password : Text
  pub host : Text
  pub port : Text

-- The CELERY_ settings.
pub record CelerySettings : Type 0 where
  pub broker_url : Text
  pub result_backend : Text
  pub accept_content : List Text
  pub task_serializer : Text
  pub result_serializer : Text
  pub timezone : Text
  pub beat_scheduler : Text

-- What is set only where DEBUG is off, the last three only where USE_SSL is on too.
pub record Hsts : Type 0 where
  pub seconds : ℕ
  pub include_subdomains : Bool
  pub preload : Bool

pub record Hardening : Type 0 where
  pub ssl_redirect : Bool
  pub proxy_ssl_header : Text × Text
  pub session_cookie_secure : Bool
  pub csrf_cookie_secure : Bool
  pub hsts : Option Hsts

unfoldable pub hardening : Bool → Bool → Option Hardening
hardening debug use_ssl =
    let hsts : Option Hsts =
      if use_ssl
      then some (record { seconds = 31536000; include_subdomains = true; preload = true })
      else none in
    if not debug
    then some (record {
      ssl_redirect = false;
      proxy_ssl_header = (codes "HTTP_X_FORWARDED_PROTO", codes "https");
      session_cookie_secure = use_ssl;
      csrf_cookie_secure = use_ssl;
      hsts = hsts;
    })
    else none

abbrev pub mentions : Text → List Text → Bool
mentions t l = exists (text_eq t) l

-- `ALLOWED_HOSTS += ["localhost", "127.0.0.1"]`, under its condition
unfoldable pub with_localhost : List Text → List Text
with_localhost hosts =
    if not (mentions (codes "localhost") hosts) && not (mentions (codes "*") hosts)
    then hosts ++ codes "localhost" ∷ codes "127.0.0.1" ∷ []
    else hosts

pub record Settings : Type 0 where
  pub secret_key : Text
  pub debug : Bool
  pub allowed_hosts : List Text
  pub template_dirs : List Text
  pub database : Database
  pub cache_location : Text
  pub static_root : Text
  pub static_dirs : List (Option Text × Text)
  pub celery : CelerySettings
  pub telegram_bot_token : Text
  pub telegram_admin_chat_id : Text
  pub use_ssl : Bool
  pub hardened : Option Hardening
  pub cors_allowed_origins : List Text
  pub csrf_trusted_origins : List Text
  pub log_file : Text

module _ (config : Text → Option Text) (csv : Text → List Text) (cast_bool : Text → Option Bool)
    (base_dir : Text) (is_there : Text → Bool) where
  -- `config(name, default=…)`
  unfoldable pub setting : Text → Text → Text
  setting name default = elim (config name) [ none ↦ default | some t ↦ t ]

  -- `config(name, default=False, cast=bool)`; `none` is a `ValueError`.
  unfoldable pub flag : Text → Option Bool
  flag name = elim (config name) [ none ↦ some false | some t ↦ cast_bool t ]

  unfoldable pub under : Text → Text
  under path = base_dir ++ (codes "/" ++ path)

  -- STATICFILES_DIRS: a directory, or a prefix with its directory, where it is there.
  unfoldable pub static_dirs : List (Option Text × Text)
  unfolding under
  static_dirs =
      let assets =
        if is_there (under (codes "frontend/dist/assets"))
        then (some (codes "assets"), under (codes "frontend/dist/assets")) ∷ []
        else [] in
      if is_there (under (codes "static")) then (none, under (codes "static")) ∷ assets else assets

  unfoldable pub database : Database
  unfolding setting
  database = record {
    engine = codes "django.db.backends.postgresql";
    name = setting (codes "DB_NAME") (codes "sshvpn");
    user = setting (codes "DB_USER") (codes "vpn");
    password = setting (codes "DB_PASSWORD") (codes "vpn");
    host = setting (codes "DB_HOST") (codes "localhost");
    port = setting (codes "DB_PORT") (codes "5432");
  }

  unfoldable pub celery : CelerySettings
  unfolding setting
  celery = record {
    broker_url = setting (codes "CELERY_BROKER_URL") (codes "redis://localhost:6379/1");
    result_backend = setting (codes "CELERY_RESULT_BACKEND") (codes "redis://localhost:6379/2");
    accept_content = codes "json" ∷ [];
    task_serializer = codes "json";
    result_serializer = codes "json";
    timezone = codes "UTC";
    beat_scheduler = codes "celery.beat:PersistentScheduler";
  }

  unfoldable pub settings_of : Bool → Bool → Settings
  unfolding database celery setting with_localhost static_dirs hardening under
  settings_of debug use_ssl = record {
    secret_key = setting (codes "SECRET_KEY") (codes "insecure-dev-key-change-me");
    debug = debug;
    allowed_hosts = with_localhost (csv (setting (codes "ALLOWED_HOSTS") (codes "*")));
    template_dirs = under (codes "templates") ∷ under (codes "frontend/dist") ∷ [];
    database = database;
    cache_location = setting (codes "REDIS_URL") (codes "redis://localhost:6379/0");
    static_root = under (codes "staticfiles");
    static_dirs = static_dirs;
    celery = celery;
    telegram_bot_token = setting (codes "TELEGRAM_BOT_TOKEN") (codes "");
    telegram_admin_chat_id = setting (codes "TELEGRAM_ADMIN_CHAT_ID") (codes "");
    use_ssl = use_ssl;
    hardened = hardening debug use_ssl;
    cors_allowed_origins = csv (
        setting (codes "CORS_ALLOWED_ORIGINS")
          (codes "http://localhost:8000,http://localhost:5173"));
    csrf_trusted_origins = csv (
        setting (codes "CSRF_TRUSTED_ORIGINS")
          (codes "http://localhost:8000,http://localhost:5173"));
    log_file = under (codes "logs/sshvpn.log");
  }

  -- The module as it loads: DEBUG is cast near its start and USE_SSL further down.
  unfoldable pub load_settings : Option Settings
  unfolding flag settings_of
  load_settings =
      then_some (flag (codes "DEBUG"))
        (λ debug. then_some (flag (codes "USE_SSL")) (λ use_ssl. some (settings_of debug use_ssl)))
