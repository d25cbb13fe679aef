-- ===== src/Page.antt =====
-- What the pages have in common: the state of a component beside the world outside, and the calls of
-- `api` with their paths and bodies. The server's answers are a parameter: `call` gives, for the type
-- T of `api<T>(…)`, the outcome of a request, in any state of the world. While a page awaits an
-- answer other handlers may run: `meanwhile` is whatever they do to the component's state.
pub mod Loading
pub mod Quiet
pub mod Samples
use rafineai_self_hosted.Prelude.{
  String, Text, Bool, Option, some, none, List, [], ◌∷◌, ◌===◌, ◌||◌, if◌then◌else◌,
}
use rafineai_self_hosted.Exec.{Outcome, Exec, Done, ◌>>=◌, ◌>>◌, skip}
use rafineai_self_hosted.Json.{Json}
use rafineai_self_hosted.Types.{
  User, UserCreateResult, Provider, OwnKey, Team, TeamMember, MarketplaceApp, Document,
  Conversation, Attachment, Message, PolicyRule, Builtin, Alert, AuditRow, ToolContext, RagAnswer,
}
use rafineai_self_hosted.ToolTypes.{
  ApiResponse, Saved, Job, Repo, Entry, FileContent, Project, Issue, Explanation, Channel, Msg,
  Summary, TsPoint, ModelRow, UserRow,
}
use Prim.Native.String

-- The T of `api<T>`, `dictionary` for a `Record<string, string>`.
pub data Shape : Type 0 where
  nothing dictionary auth_url object_url plain_text : Shape
  user user_create_result provider own_key team team_member marketplace_app document : Shape
  conversation attachment message policy_rule builtin alert audit_row tool_context rag_answer :
      Shape
  api_response saved job repo entry file_content project issue explanation : Shape
  channel msg summary ts_point model_row user_row : Shape
  list : Shape → Shape

abbrev pub Payload : Shape → Type 0
Payload nothing = Unit
Payload dictionary = List (String × String)
Payload auth_url = String
Payload object_url = String
Payload plain_text = Text
Payload user = User
Payload user_create_result = UserCreateResult
Payload provider = Provider
Payload own_key = OwnKey
Payload team = Team
Payload team_member = TeamMember
Payload marketplace_app = MarketplaceApp
Payload document = Document
Payload conversation = Conversation
Payload attachment = Attachment
Payload message = Message
Payload policy_rule = PolicyRule
Payload builtin = Builtin
Payload alert = Alert
Payload audit_row = AuditRow
Payload tool_context = ToolContext
Payload rag_answer = RagAnswer
Payload api_response = ApiResponse
Payload saved = Saved
Payload job = Job
Payload repo = Repo
Payload entry = Entry
Payload file_content = FileContent
Payload project = Project
Payload issue = Issue
Payload explanation = Explanation
Payload channel = Channel
Payload msg = Msg
Payload summary = Summary
Payload ts_point = TsPoint
Payload model_row = ModelRow
Payload user_row = UserRow
Payload (list t) = List (Payload t)

pub data Content : Type 0 where
  no_content : Content
  json : Json → Content
  upload : (filename : Text) → Content

pub record Call : Type 0 where
  pub method : String
  pub path : String
  pub content : Content

abbrev pub get : String → Call
get path = record { method = "GET"; path = path; content = no_content }

abbrev pub post : String → Json → Call
post path body = record { method = "POST"; path = path; content = json body }

abbrev pub put : String → Json → Call
put path body = record { method = "PUT"; path = path; content = json body }

abbrev pub patch : String → Json → Call
patch path body = record { method = "PATCH"; path = path; content = json body }

abbrev pub delete : String → Call
delete path = record { method = "DELETE"; path = path; content = no_content }

-- uploadFile(path, form) and `api(path, { method: "POST", body: form })`
abbrev pub send_file : String → Text → Call
send_file path filename = record { method = "POST"; path = path; content = upload filename }

-- `${a}/${b}` of path templates.
infixr 66 ◌/+◌
abbrev pub ◌/+◌ : String → String → String
a /+ b = String.◌++◌ a b

pub record Machine (S W : Type 0) : Type 0 where
  pub ui : S
  pub world : W

pub record Env (S W : Type 0) : Type 0 where
  pub call : (t : Shape) → Call → W → Outcome (Payload t) × W
  pub meanwhile : W → S → S

module _ {S W : Type 0} (env : Env S W) where
  -- await api<T>(path, …)
  unfoldable pub await_api : (t : Shape) → Call → Exec (Machine S W) (Payload t)
  await_api t q m =
      let (o, w) = env.call t q m.world in (o, record { ui = env.meanwhile w m.ui; world = w })

-- Two requests of a Promise.all: both are made, and the first one of them that failed is the failure.
abbrev pub joined : {A B : Type 0} → Outcome A → Outcome B → Outcome (A × B)
joined (Outcome.ok a) (Outcome.ok b) = Outcome.ok (a, b)
joined (Outcome.ok a) (Outcome.fail e) = Outcome.fail e
joined (Outcome.fail e) o = Outcome.fail e

module _ {S W : Type 0} where
  abbrev pub on_ui : (S → S) → Machine S W → Machine S W
  on_ui f m = record m { ui = f m.ui }

  -- One or several calls of state setters.
  abbrev pub set_ui : (S → S) → Exec (Machine S W) Done
  set_ui f m = (Outcome.ok tt, on_ui f m)

  unfoldable pub both :
      {A B : Type 0} → Exec (Machine S W) A → Exec (Machine S W) B → Exec (Machine S W) (A × B)
  both f g m = let r = f m in let t = g r.1 in (joined r.0 t.0, t.1)

-- `getRole() === "owner" || getRole() === "admin"`
abbrev pub is_admin : Option String → Bool
is_admin none = Bool.false
is_admin (some r) = r === "owner" || r === "admin"

-- `set…(await api<T>(path, …))`
unfoldable pub load :
    {S W : Type 0} (env : Env S W) (t : Shape)
    → Call
    → (Payload t → S → S)
    → Exec (Machine S W) Done
unfolding await_api
load env t q f = do x ← await_api env t q; set_ui (f x)

-- A request whose answer is not used.
unfoldable pub request : {S W : Type 0} (env : Env S W) → Call → Exec (Machine S W) Done
unfolding await_api
request env q = do await_api env nothing q; skip

-- `if (v) payload.k = v`, `...(v ? { k: v } : {})`
abbrev pub optional : String → String → Json → List (String × Json)
optional k v j = if v === "" then [] else (k, j) ∷ []
