-- ===== src/ToolTypes.antt =====
-- The interfaces of the pages under panel/app/(dash)/tools and of the dashboard. Sizes, counts and
-- times are natural numbers; a name, an id or a path that is taken apart is `Text`.
use rafineai_self_hosted.Decimal.{Fraction}
use rafineai_self_hosted.Prelude.{ℕ, String, Text, Bool, Option, List}

pub record ApiResponse : Type 0 where
  pub status : ℕ
  pub headers : List (Text × Text)
  pub body : String
  pub time_ms : ℕ
  pub size_bytes : ℕ

pub record Saved : Type 0 where
  pub id : String
  pub name : String
  pub method : String
  pub url : String
  pub headers : List (Text × Text)
  pub body : String

pub record Job : Type 0 where
  pub id : String
  pub base_model : String
  pub external_job_id : String
  pub status : String
  pub fine_tuned_model : String
  pub error : String
  pub created_at : String

pub record Repo : Type 0 where
  pub full_name : Text
  pub is_private : Bool
  pub default_branch : String
  pub description : String

pub record Entry : Type 0 where
  pub name : String
  pub path : Text
  pub type : String
  pub size : ℕ

pub record FileContent : Type 0 where
  pub path : String
  pub size : ℕ
  pub content : String

pub record Project : Type 0 where
  pub slug : String
  pub name : String

pub record Issue : Type 0 where
  pub id : Text
  pub title : String
  pub culprit : String
  pub level : String
  pub count : String
  pub last_seen : String
  pub permalink : String

pub record Explanation : Type 0 where
  pub issue_id : String
  pub title : String
  pub permalink : String
  pub answer : String

pub record Channel : Type 0 where
  pub id : String
  pub name : String
  pub followed : Option Bool

pub record Msg : Type 0 where
  pub ts : String
  pub user : String
  pub text : String

pub record Summary : Type 0 where
  pub requests : ℕ
  pub tokens : ℕ
  pub avg_latency_ms : ℕ
  pub p95_latency_ms : ℕ
  pub errors : ℕ
  pub error_rate : Fraction
  pub estimated_cost_usd : Fraction

pub record TsPoint : Type 0 where
  pub day : String
  pub requests : ℕ
  pub tokens : ℕ

pub record ModelRow : Type 0 where
  pub model : String
  pub requests : ℕ
  pub tokens : ℕ
  pub estimated_cost_usd : Fraction

pub record UserRow : Type 0 where
  pub email : String
  pub requests : ℕ
  pub tokens : ℕ
