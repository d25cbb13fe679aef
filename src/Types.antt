-- ===== src/Types.antt =====
-- panel/lib/types.ts: the rows that the management api sends, and the shapes of the local interfaces
-- of the pages. Counts, sizes and limits are natural numbers; ids, modes and dates are strings, and
-- a text that the panel takes apart is `Text`. An optional field or a null is `none`.
use rafineai_self_hosted.Prelude.{ℕ, String, Text, Bool, Option, List}

pub record User : Type 0 where
  pub id : String
  pub email : String
  pub role : String
  pub is_active : Bool
  pub must_change_password : Bool
  pub rate_limit_rpm : Option ℕ
  pub daily_token_quota : Option ℕ

pub record UserCreateResult : Type 0 where
  pub user : User
  pub generated_password : Option String

pub record Provider : Type 0 where
  pub id : String
  pub name : String
  pub type : String
  pub auth_mode : String
  pub has_api_key : Bool
  pub base_url : Option String
  pub default_model : String
  pub is_active : Bool
  pub light_model : Option String
  pub heavy_model : Option String
  pub route_threshold_tokens : ℕ
  pub connected : Bool
  pub own_key : Bool

pub record OwnKey : Type 0 where
  pub provider_type : String
  pub label : String
  pub created_at : String

pub record Team : Type 0 where
  pub id : String
  pub name : String
  pub description : String
  pub rate_limit_rpm : Option ℕ
  pub daily_token_quota : Option ℕ
  pub member_count : ℕ
  pub provider_ids : List String
  pub created_at : String

pub record TeamMember : Type 0 where
  pub user_id : String
  pub email : String
  pub role_in_team : String

pub record ConfigField : Type 0 where
  pub key : String
  pub label : String
  pub secret : Bool
  pub placeholder : Option String
  pub optional : Bool

pub record SetupGuide : Type 0 where
  pub subtitle : Option String
  pub console_url : String
  pub console_label : String
  pub steps : List String

pub record MarketplaceApp : Type 0 where
  pub slug : String
  pub name : String
  pub category : String
  pub icon : String
  pub description : String
  pub config_fields : List ConfigField
  pub guide : Option SetupGuide
  pub needs_config : Bool
  pub installed : Bool
  pub enabled : Bool

pub record Document : Type 0 where
  pub id : String
  pub filename : Text
  pub mime_type : Text
  pub size_bytes : ℕ
  pub sha256 : String
  pub indexed : Bool
  pub team_id : Option String
  pub created_at : String

pub record Conversation : Type 0 where
  pub id : String
  pub provider_id : Option String
  pub model : String
  pub title : Text

pub record Attachment : Type 0 where
  pub url : String
  pub filename : Text
  pub content_type : Text
  pub size : ℕ
  pub text_content : Option Text

pub record Message : Type 0 where
  pub id : String
  pub role : String
  pub content : Text
  pub tokens : ℕ
  pub attachments : List Attachment

pub record PolicyRule : Type 0 where
  pub id : String
  pub name : String
  pub category : String
  pub kind : String
  pub pattern : String
  pub action : String
  pub severity : String
  pub enabled : Bool

pub record Builtin : Type 0 where
  pub name : String
  pub category : String
  pub action : String
  pub severity : String

pub record Alert : Type 0 where
  pub id : String
  pub user_id : Option String
  pub conversation_id : Option String
  pub rule_name : String
  pub category : String
  pub action : String
  pub severity : String
  pub snippet : Text
  pub resolved : Bool
  pub created_at : String

pub record AuditRow : Type 0 where
  pub id : String
  pub user_id : Option String
  pub provider_id : Option String
  pub model : Option String
  pub request_tokens : ℕ
  pub response_tokens : ℕ
  pub latency_ms : ℕ
  pub status_code : ℕ
  pub applied_policies : List String
  pub error : Option String
  pub created_at : String

-- { label, text } of the context tool, and { slug, name, icon } of a context source.
pub record ToolContext : Type 0 where
  pub label : Text
  pub text : Text

pub record Source : Type 0 where
  pub slug : String
  pub name : String
  pub icon : String

-- { answer, sources } of the knowledge base.
pub record RagAnswer : Type 0 where
  pub answer : String
  pub sources : List String
