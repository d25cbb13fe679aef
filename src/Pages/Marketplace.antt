-- ===== src/Pages/Marketplace.antt =====
-- panel/app/(dash)/marketplace/page.tsx.
pub mod Installing
pub mod Dialog
use rafineai_self_hosted.Prelude.{
  String, Bool, true, false, not, ◌&&◌, Option, none, some, List, [], ◌∷◌, map, filter, includes,
  ◌===◌, if◌then◌else◌,
}
use rafineai_self_hosted.Exec.{Failure, message, Exec, Done, captured, try_catch, ◌>>=◌, ◌>>◌, skip}
use rafineai_self_hosted.Json.{Json, bool, str, object}
use rafineai_self_hosted.Types.{SetupGuide, MarketplaceApp}
use rafineai_self_hosted.Page.{
  list, marketplace_app, dictionary, Call, get, post, delete, ◌/+◌, Machine, Env, await_api, set_ui,
  load, request, is_admin,
}

pub data Step : Type 0 where
  guide form : Step

pub record Marketplace : Type 0 where
  pub apps : List MarketplaceApp
  pub error : String
  pub configuring : Option MarketplaceApp
  pub step : Step
  pub form : List (String × String)

-- TOOL_LINKS[slug]
unfoldable pub tool_link : String → Option String
tool_link slug =
    if slug === "github"
    then some "/tools/github"
    else if slug === "slack"
    then some "/tools/slack"
    else if slug === "sentry"
    then some "/tools/sentry"
    else if slug === "api_client"
    then some "/tools/api-client"
    else if slug === "swagger"
    then some "/tools/swagger"
    else if slug === "finetune"
    then some "/tools/finetune"
    else none

abbrev step_for : Option SetupGuide → Step
step_for none = form
step_for (some g) = guide

unfoldable pub close_config : Marketplace → Marketplace
close_config s = record s { configuring = none; form = [] }

-- Array.from(new Set(apps.map((a) => a.category))): the first of each, in order.
unfoldable pub distinct_from : List String → List String → List String
distinct_from seen [] = []
distinct_from seen (c ∷ cs) = elim (includes c seen) [
  | true ↦ distinct_from seen cs
  | false ↦ c ∷ distinct_from (c ∷ seen) cs
]

unfoldable pub categories : List MarketplaceApp → List String
unfolding distinct_from
categories apps = distinct_from [] (map (λ (a : MarketplaceApp). a.category) apps)

-- The cards below the title of a category.
unfoldable pub cards : String → List MarketplaceApp → List MarketplaceApp
cards category = filter (λ (a : MarketplaceApp). a.category === category)

-- The buttons of a card, by the viewer's role.
pub record Card : Type 0 where
  pub link : Option String
  pub configure_new : Bool
  pub quick_install : Bool
  pub configure : Bool
  pub switch : Bool
  pub uninstall : Bool
  pub ask_admin : Bool

unfoldable pub card : Option String → MarketplaceApp → Card
unfolding tool_link
card role a =
    let admin = is_admin role in
    record {
      link = if a.installed && a.enabled then tool_link a.slug else none;
      configure_new = admin && not a.installed && a.needs_config;
      quick_install = admin && not a.installed && not a.needs_config;
      configure = admin && a.installed && a.needs_config;
      switch = admin && a.installed;
      uninstall = admin && a.installed;
      ask_admin = not admin && not a.installed;
    }

abbrev pub report : {W : Type 0} → Failure → Exec (Machine Marketplace W) Done
report e = set_ui (λ s. record s { error = message e })

abbrev strings : List (String × String) → List (String × Json)
strings = map (λ (f : String × String). (f.0, str f.1))

module _ {W : Type 0} (env : Env Marketplace W) where
  unfoldable pub refresh : Exec (Machine Marketplace W) Done
  unfolding load
  refresh =
      load env (list marketplace_app) (get "/api/marketplace") (λ xs s. record s { apps = xs })

  unfoldable pub mount : Exec (Machine Marketplace W) Done
  unfolding refresh
  mount = try_catch refresh report

  unfoldable pub load_config : MarketplaceApp → Exec (Machine Marketplace W) Done
  unfolding load
  load_config a =
      try_catch
        (load env dictionary (get ("/api/marketplace/" /+ a.slug /+ "/config"))
          (λ cfg s. record s { form = cfg }))
        (λ _. skip)

  unfoldable pub open_config : MarketplaceApp → Exec (Machine Marketplace W) Done
  unfolding load_config
  open_config a = do
    set_ui (λ s. record s { form = [] })
    if a.installed then load_config a else skip
    set_ui (λ s. record s { step = step_for a.guide; configuring = some a })

  abbrev pub install_call : String → List (String × String) → Call
  install_call slug config =
      post ("/api/marketplace/" /+ slug /+ "/install")
        (object (("config", object (strings config)) ∷ []))

  unfoldable pub install : MarketplaceApp → Exec (Machine Marketplace W) Done
  unfolding request refresh
  install a = captured λ c.
      try_catch (do request env (install_call a.slug c.ui.form); set_ui close_config; refresh)
        report

  unfoldable pub quick_install : MarketplaceApp → Exec (Machine Marketplace W) Done
  unfolding request refresh
  quick_install a = try_catch (do request env (install_call a.slug []); refresh) report

  unfoldable pub toggle : MarketplaceApp → Exec (Machine Marketplace W) Done
  unfolding request refresh
  toggle a = do
    request env (
        post ("/api/marketplace/" /+ a.slug /+ "/toggle")
          (object (("enabled", bool (not a.enabled)) ∷ [])))
    refresh

  unfoldable pub uninstall : Bool → MarketplaceApp → Exec (Machine Marketplace W) Done
  unfolding request refresh
  uninstall confirmed a =
      if confirmed then (do request env (delete ("/api/marketplace/" /+ a.slug)); refresh) else skip
