-- ===== src/Chat/Selection.antt =====
-- The provider that the chat page selects.
use rafineai_self_hosted.Prelude.{
  String, Bool, true, false, not, ◌&&◌, List, [], ◌∷◌, ◌≡◌, ◌≢◌, refl, any, is_empty, head?, arith,
  eq_iff, ◌===◌, if◌then◌else◌,
}
use rafineai_self_hosted.Types.{Provider}
use rafineai_self_hosted.Chat.{usable_providers, choose_provider, id_or_empty}

-- Some usable provider has this id.
abbrev pub is_offered : List Provider → String → Bool
is_offered ps id = any (λ (p : Provider). p.id === id) (usable_providers ps)

-- `choose_provider` over the list of usable providers.
abbrev pick : List Provider → String → String
pick us cur =
    if not (cur === "") && any (λ (p : Provider). p.id === cur) us
    then cur
    else id_or_empty (head? us)

abbrev offers : List Provider → String → Bool
offers us id = any (λ (p : Provider). p.id === id) us

first-offered :
    (ps : List Provider)
    → is_empty ps ≡ false
    → any (λ (p : Provider). p.id === id_or_empty (head? ps)) ps ≡ true
first-offered [] h = cc
first-offered (p ∷ ps) h = ground (arith, eq_iff p.id p.id)

keep : (us : List Provider) (cur : String) → cur ≢ "" → offers us cur ≡ true → pick us cur ≡ cur
keep us cur named offered = ground (arith, eq_iff cur "")

offer_if :
    (us : List Provider) (cur : String) (b : Bool)
    → (b ≡ true → offers us cur ≡ true)
    → is_empty us ≡ false
    → offers us (if b then cur else id_or_empty (head? us)) ≡ true
offer_if us cur true h some_us = h refl
offer_if us cur false h some_us = first-offered us some_us

offer : (us : List Provider) (cur : String) → is_empty us ≡ false → offers us (pick us cur) ≡ true
offer us cur h = offer_if us cur _ (λ e. ground arith) h

pick_idempotent : (us : List Provider) (cur : String) → pick us (pick us cur) ≡ pick us cur
pick_idempotent [] cur = ground arith
pick_idempotent (p ∷ us) cur = ground (arith, eq_iff p.id p.id, eq_iff p.id cur)

-- A selection that is still offered stays.
pub choose_provider-kept :
    (ps : List Provider) (cur : String)
    → cur ≢ ""
    → is_offered ps cur ≡ true
    → choose_provider ps cur ≡ cur
unfolding choose_provider
choose_provider-kept ps cur = keep (usable_providers ps) cur

-- Where some provider is usable, the selection is the id of a usable one, whatever it was before.
pub choose_provider-offered :
    (ps : List Provider) (cur : String)
    → is_empty (usable_providers ps) ≡ false
    → is_offered ps (choose_provider ps cur) ≡ true
unfolding choose_provider
choose_provider-offered ps cur = offer (usable_providers ps) cur

-- Loading the same providers again, as each focus of the tab does, does not move the selection.
pub choose_provider_idempotent :
    (ps : List Provider) (cur : String)
    → choose_provider ps (choose_provider ps cur) ≡ choose_provider ps cur
unfolding choose_provider
choose_provider_idempotent ps cur = pick_idempotent (usable_providers ps) cur
