-- ===== src/Pages/Providers/Editing.antt =====
-- The form of the providers page.
use rafineai_self_hosted.Prelude.{
  String, Bool, some, List, ◌≡◌, ◌≢◌, any, arith, eq_iff, ◌===◌, not,
}
use rafineai_self_hosted.Json.{Json}
use rafineai_self_hosted.Pages.Providers.{Preset, Form, swap, preset?, set_type, payload}

abbrev pub has_key : String → List (String × Json) → Bool
has_key k fs = any (λ (f : String × Json). f.0 === k) fs

-- The request carries the shared key exactly in the mode "api_key", and the client secret exactly in
-- any other mode: never both.
pub payload-credentials :
    (parse_int : String → Json) (f : Form)
    → (has_key "api_key" (payload parse_int f) ≡ (f.auth_mode === "api_key"))
      × (has_key "oauth_client_secret" (payload parse_int f) ≡ not (f.auth_mode === "api_key"))
unfolding payload
payload-credentials parse_int f = ground arith

-- The four fields of the form that a preset fills.
pub record IsUntouched (p : Preset) (f : Form) : Type 0 where
  pub name : f.name ≡ p.name
  pub default_model : f.default_model ≡ p.default_model
  pub light_model : f.light_model ≡ p.light_model
  pub heavy_model : f.heavy_model ≡ p.heavy_model

swap_back :
    (field : Preset → String) (v : String) (p q : Preset)
    → v ≡ field p
    → swap (some q) field (swap (some p) field v q) p ≡ v
swap_back field v p q e = ground (arith, eq_iff v (field p), eq_iff (field q) (field q))

-- Switching an untouched form from one known type to another and back gives the same form.
pub set_type-set_type :
    (v : String) (f : Form) (p q : Preset)
    → preset? f.type ≡ some p
    → preset? v ≡ some q
    → IsUntouched p f
    → set_type f.type (set_type v f) ≡ f
unfolding set_type
set_type-set_type v f p q known known' same =
    rw (known, known')
      (λ i. record f {
        name = swap_back Preset.name f.name p q same.name i;
        default_model = swap_back Preset.default_model f.default_model p q same.default_model i;
        light_model = swap_back Preset.light_model f.light_model p q same.light_model i;
        heavy_model = swap_back Preset.heavy_model f.heavy_model p q same.heavy_model i;
      })

-- A name that is not the preset's stays, whatever type is chosen.
pub name-set_type :
    (v : String) (f : Form) (p : Preset)
    → preset? f.type ≡ some p
    → f.name ≢ p.name
    → (set_type v f).name ≡ f.name
unfolding set_type
name-set_type v f p known own = rw known (ground (arith, eq_iff f.name p.name))
