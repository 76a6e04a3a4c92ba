-- ===== src/Settings.antt =====
-- packages/runtime/rust/src/domain/settings.rs: the settings of the application and their defaults.
pub mod Mapping
pub mod Building
pub mod State
pub mod Operations
pub mod Built
pub mod Committed
mod Same
pub mod InStep
mod Runs
mod Secret
mod Names
pub mod Seed
mod Seeded
pub mod Listing
mod Tests
mod Deleted
pub mod Kept
use linguaray.Base.{ℕ, Bool, true, false, Option, none, some, List, [], codes, Text}
use linguaray.Base.Maps.{HashMap}
use linguaray.Targets.{TranslationTarget}
use linguaray.Engine.{ProviderType}

pub record ShortcutSettings : Type 0 where
  pub toggle_mini_translator : Text
  pub extract_text_from_screen_selection : Text
  pub extract_text_from_screen_capture : Text
  pub capture_ocr : Text
  pub silent_capture_ocr : Text
  pub file_ocr : Text
  pub clipboard_ocr : Text
  pub show_ocr_window : Text
  pub extract_text_from_clipboard : Text
  pub translate_input_content : Text

abbrev pub default_shortcuts : ShortcutSettings
default_shortcuts = record {
  toggle_mini_translator = codes "Option+1";
  extract_text_from_screen_selection = codes "Option+Q";
  extract_text_from_screen_capture = codes "Option+W";
  capture_ocr = codes "Option+Shift+W";
  silent_capture_ocr = [];
  file_ocr = [];
  clipboard_ocr = [];
  show_ocr_window = [];
  extract_text_from_clipboard = codes "Option+E";
  translate_input_content = codes "Option+Z";
}

pub record AppearanceSettings : Type 0 where
  pub language : Text
  pub theme_mode : Text
  pub theme : Text

abbrev pub default_appearance : AppearanceSettings
default_appearance = record {
  language = codes "zh-Hans";
  theme_mode = codes "light";
  theme = codes "bright";
}

pub data InputSubmitMode : Type 0 where
  enter command_enter : InputSubmitMode

pub record GeneralSettings : Type 0 where
  pub launch_at_login : Bool
  pub show_in_menu_bar : Bool
  pub default_ocr_service : Text
  pub auto_copy_detected_text : Bool
  pub default_directory_service : Text
  pub default_translation_service : Text
  pub translation_targets : List TranslationTarget
  pub input_submit_mode : InputSubmitMode
  pub double_click_copy_result : Bool
  pub common_languages : List Text
  pub translation_service_order : List Text

abbrev pub default_general : GeneralSettings
default_general = record {
  launch_at_login = false;
  show_in_menu_bar = true;
  default_ocr_service = [];
  auto_copy_detected_text = true;
  default_directory_service = [];
  default_translation_service = [];
  translation_targets = [];
  input_submit_mode = enter;
  double_click_copy_result = true;
  common_languages = [];
  translation_service_order = [];
}

pub record AdvancedSettings : Type 0 where
  pub api_server_enabled : Bool
  pub api_server_host : Text
  pub api_server_port : ℕ
  pub proxy_mode : Text
  pub proxy_url : Text
  pub proxy_bypass : Text
  pub check_updates_on_launch : Bool

abbrev pub default_advanced : AdvancedSettings
default_advanced = record {
  api_server_enabled = false;
  api_server_host = codes "127.0.0.1";
  api_server_port = 0;
  proxy_mode = codes "system";
  proxy_url = [];
  proxy_bypass = codes "localhost,127.0.0.1";
  check_updates_on_launch = true;
}

-- `r#type` of the code is `kind`.
pub record ProviderConfigEntry : Type 0 where
  pub id : Text
  pub kind : ProviderType
  pub fields : HashMap Text
  pub created_at : Option ℕ
  pub preset_id : Option Text

pub data ServiceType : Type 0 where
  dictionary ocr translation llm : ServiceType

pub record ServiceConfigEntry : Type 0 where
  pub id : Text
  pub provider_id : Text
  pub kind : ServiceType
  pub name : Text
  pub fields : HashMap Text
  pub created_at : Option ℕ

pub record Settings : Type 0 where
  pub last_updated : ℕ
  pub providers : HashMap ProviderConfigEntry
  pub services : HashMap ServiceConfigEntry
  pub general : GeneralSettings
  pub shortcuts : ShortcutSettings
  pub appearance : AppearanceSettings
  pub advanced : AdvancedSettings
  pub catalog_seed_revision : ℕ

abbrev pub default_settings : Settings
default_settings = record {
  last_updated = 0;
  providers = [];
  services = [];
  general = default_general;
  shortcuts = default_shortcuts;
  appearance = default_appearance;
  advanced = default_advanced;
  catalog_seed_revision = 0;
}
