-- ===== src/Pages/Connections/View.antt =====
-- What the connections page shows of its state, and what its buttons do. Icons and classes are left
-- out; the texts that do not depend on the state, too.
use rafineai_self_hosted.Prelude.{
  String, Text, trim, Bool, false, ◌||◌, not, Option, none, some, List, [], ◌∷◌, map, is_empty,
  ◌===◌, if◌then◌else◌,
}
use rafineai_self_hosted.Exec.{Exec, Done, skip}
use rafineai_self_hosted.Types.{Provider, OwnKey}
use rafineai_self_hosted.Client.{truthy}
use rafineai_self_hosted.Page.{Machine, Env}
use rafineai_self_hosted.Pages.Connections.{
  ByokType, byok_types, Step, guide, key, Connections, oauth_providers, shared_providers, save_key,
}

-- The rest of BYOK_TYPES: how a key of the type is got.
pub record Guide : Type 0 where
  pub name : String
  pub placeholder : String
  pub console_url : String
  pub console_label : String
  pub steps : List String

unfoldable pub guide_of : String → Option Guide
guide_of type =
    if type === "openai"
    then some (record {
      name = "OpenAI";
      placeholder = "sk-proj-… veya sk-…";
      console_url = "https://platform.openai.com/api-keys";
      console_label = "OpenAI Platform → API Keys";
      steps =
          "platform.openai.com adresine git ve giriş yap." ∷ "Soldan API Keys'e tıkla."
          ∷ "Create new secret key → anahtarı kopyala." ∷ "Aşağıya yapıştır ve Bağla'ya bas." ∷ [];
    })
    else if type === "anthropic"
    then some (record {
      name = "Anthropic (Claude)";
      placeholder = "sk-ant-api03-…";
      console_url = "https://console.anthropic.com/settings/keys";
      console_label = "Anthropic Console → API Keys";
      steps =
          "console.anthropic.com adresine git ve giriş yap." ∷ "Soldan API Keys'e tıkla."
          ∷ "Create Key → anahtarı kopyala (yalnızca bir kez gösterilir)."
          ∷ "Aşağıya yapıştır ve Bağla'ya bas." ∷ [];
    })
    else if type === "gemini"
    then some (record {
      name = "Google Gemini";
      placeholder = "AIzaSy…";
      console_url = "https://aistudio.google.com/app/apikey";
      console_label = "Google AI Studio → API Keys";
      steps =
          "aistudio.google.com adresine git ve giriş yap." ∷ "Get API key → Create API key seç."
          ∷ "Anahtarı kopyala." ∷ "Aşağıya yapıştır ve Bağla'ya bas." ∷ [];
    })
    else none

-- The dialog: the guide, or the input of the key.
pub data Dialog : Type 0 where
  closed : Dialog
  guide_shown : (g : Guide) → Dialog
  key_asked :
      (g : Guide) (value : Text) (problem : Option String) (disabled : Bool) (label : String)
      → Dialog

abbrev shown_if : String → Option String
shown_if e = if e === "" then none else some e

abbrev connect_disabled : Connections → Bool
connect_disabled s = s.saving || is_empty (trim s.key_input)

abbrev dialog_at : Step → Guide → Connections → Dialog
dialog_at guide g s = guide_shown g
dialog_at key g s =
    key_asked g s.key_input (shown_if s.save_error) (connect_disabled s)
      (if s.saving then "Doğrulanıyor…" else "Bağla")

abbrev dialog_of : Option Guide → Connections → Dialog
dialog_of none s = closed
dialog_of (some g) s = dialog_at s.step g s

abbrev dialog_for : Option String → Connections → Dialog
unfolding guide_of
dialog_for none s = closed
dialog_for (some type) s = dialog_of (guide_of type) s

-- editType && activeDef && …
unfoldable pub dialog : Connections → Dialog
unfolding dialog_for
dialog s = dialog_for (truthy s.edit_type) s

-- The notices above the cards.
unfoldable pub notices : Connections → List String
notices s = if s.just_connected then "✅ Bağlantı başarıyla tamamlandı." ∷ saved else saved
  where
    saved : List String
    saved = elim (truthy s.saved_notice) [ none ↦ [] | some name ↦ name ∷ [] ]

-- ownKeyMap[type]: the last key of the type.
abbrev later_or : Option OwnKey → Option OwnKey → Option OwnKey
later_or (some k) o = some k
later_or none o = o

unfoldable pub own_key_of : String → List OwnKey → Option OwnKey
own_key_of type [] = none
own_key_of type (k ∷ ks) =
    later_or (own_key_of type ks) (if k.provider_type === type then some k else none)

-- A card: one button to connect, or two to update and to remove.
pub data CardButtons : Type 0 where
  connect : CardButtons
  update_or_remove : CardButtons

pub record Card : Type 0 where
  pub type : String
  pub name : String
  pub state : String
  pub buttons : CardButtons

abbrev card_with : ByokType → Option OwnKey → Card
card_with b none = record { type = b.type; name = b.name; state = "Bağlı değil"; buttons = connect }
card_with b (some k) = record {
  type = b.type;
  name = b.name;
  state = "✓ Bağlı";
  buttons = update_or_remove;
}

unfoldable pub cards : Connections → List Card
unfolding own_key_of
cards s = map (λ (b : ByokType). card_with b (own_key_of b.type s.own_keys)) byok_types

-- A row of a provider, with its badges, and its button to connect.
pub record Row : Type 0 where
  pub name : String
  pub type : String
  pub default_model : String
  pub badges : List String
  pub can_connect : Bool

abbrev oauth_row : Provider → Row
oauth_row p = record {
  name = p.name;
  type = p.type;
  default_model = p.default_model;
  badges = (if p.connected then "bağlı" ∷ "Bağlı" ∷ [] else "bağlı değil" ∷ []);
  can_connect = not p.connected;
}

abbrev shared_row : Provider → Row
shared_row p = record {
  name = p.name;
  type = p.type;
  default_model = p.default_model;
  badges = (if p.own_key then "Kendi anahtarın" ∷ "Hazır" ∷ [] else "Hazır" ∷ []);
  can_connect = false;
}

unfoldable pub oauth_rows : Connections → List Row
unfolding oauth_providers
oauth_rows s = map oauth_row (oauth_providers s)

unfoldable pub shared_rows : Connections → List Row
unfolding shared_providers
shared_rows s = map shared_row (shared_providers s)

-- The inputs and buttons of the dialog.
unfoldable pub type_key : Text → Connections → Connections
type_key t s = record s { key_input = t }

unfoldable pub go_to : Step → Connections → Connections
go_to step s = record s { step = step }

-- onKeyDown of the key's input, which does not look at `saving`
unfoldable pub key_down :
    {W : Type 0} → Env Connections W → String → Exec (Machine Connections W) Done
unfolding save_key
key_down env name = if name === "Enter" then save_key env else skip
