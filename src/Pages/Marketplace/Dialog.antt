-- ===== src/Pages/Marketplace/Dialog.antt =====
-- The dialog of the marketplace page, as it shows the app that is being configured.
use rafineai_self_hosted.Prelude.{
  String, Bool, Option, none, some, List, [], ◌∷◌, map, ◌===◌, if◌then◌else◌,
}
use rafineai_self_hosted.Types.{SetupGuide, MarketplaceApp, ConfigField}
use rafineai_self_hosted.Pages.Marketplace.{Marketplace, Step, guide, form, close_config}

-- An input: its label, whether it hides what is typed, its hint and its value.
pub record Input : Type 0 where
  pub key : String
  pub label : String
  pub optional : Bool
  pub hidden : Bool
  pub hint : Option String
  pub value : String

-- form[f.key] ?? ""
unfoldable pub value_of : String → List (String × String) → String
value_of k [] = ""
value_of k ((j, v) ∷ fs) = if j === k then v else value_of k fs

abbrev input_of : List (String × String) → ConfigField → Input
unfolding value_of
input_of fs f = record {
  key = f.key;
  label = f.label;
  optional = f.optional;
  hidden = f.secret;
  hint = f.placeholder;
  value = value_of f.key fs;
}

-- The button beside "Kaydet": back to the guide, or away.
pub data Back : Type 0 where
  to_guide cancel : Back

pub data Content : Type 0 where
  steps_shown : (steps : List String) (url label : String) → Content
  inputs_shown : List Input → Back → Content

pub record Dialog : Type 0 where
  pub icon : String
  pub name : String
  pub subtitle : String
  pub content : Content

abbrev or_default : Option String → String
or_default none = "Yapılandırma"
or_default (some s) = s

abbrev subtitle_of : Option SetupGuide → String
subtitle_of none = "Yapılandırma"
subtitle_of (some g) = or_default g.subtitle

-- step === "guide" && configuring.guide
abbrev content_of : Step → Option SetupGuide → List Input → Content
content_of guide (some g) inputs = steps_shown g.steps g.console_url g.console_label
content_of guide none inputs = inputs_shown inputs cancel
content_of form (some g) inputs = inputs_shown inputs to_guide
content_of form none inputs = inputs_shown inputs cancel

abbrev dialog_of : Option MarketplaceApp → Marketplace → Option Dialog
unfolding input_of
dialog_of none s = none
dialog_of (some a) s = some (record {
  icon = a.icon;
  name = a.name;
  subtitle = subtitle_of a.guide;
  content = content_of s.step a.guide (map (input_of s.form) a.config_fields);
})

unfoldable pub dialog : Marketplace → Option Dialog
unfolding dialog_of
dialog s = dialog_of s.configuring s

unfoldable pub go_to : Step → Marketplace → Marketplace
go_to step s = record s { step = step }

-- setForm((s) => ({ ...s, [f.key]: v }))
unfoldable pub put_value : String → String → List (String × String) → List (String × String)
put_value k v [] = (k, v) ∷ []
put_value k v ((j, u) ∷ fs) = if j === k then (j, v) ∷ fs else (j, u) ∷ put_value k v fs

unfoldable pub type_value : String → String → Marketplace → Marketplace
unfolding put_value
type_value k v s = record s { form = put_value k v s.form }

-- A click beside the dialog, of its × or of "İptal".
unfoldable pub dismiss : Marketplace → Marketplace
unfolding close_config
dismiss s = close_config s
