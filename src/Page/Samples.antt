-- ===== src/Page/Samples.antt =====
-- A server for the tests: it counts its requests, answers some of them and is out of order for the
-- others, and no other handler runs meanwhile.
use rafineai_self_hosted.Prelude.{ℕ, suc, text, true, false, none, some, [], ◌∷◌, refl}
use rafineai_self_hosted.Exec.{api_error, Outcome, ok, fail}
use rafineai_self_hosted.Types.{User, Provider, Document}
use rafineai_self_hosted.Client.{Session}
use rafineai_self_hosted.Page.{
  nothing, dictionary, object_url, user, rag_answer, explanation, Shape, Payload, Machine, Env,
}
use rafineai_self_hosted.Page.Quiet.{IsQuiet}

abbrev pub ayse : User
ayse = record {
  id = "u1";
  email = "ayse@example.com";
  role = "admin";
  is_active = true;
  must_change_password = false;
  rate_limit_rpm = none;
  daily_token_quota = none;
}

abbrev pub reply : (t : Shape) → Outcome (Payload t)
reply nothing = ok tt
reply dictionary = ok (("chat_theme", "ocean") ∷ [])
reply object_url = ok "blob:2"
reply user = ok ayse
reply rag_answer = ok (record { answer = "42"; sources = "d1" ∷ [] })
reply explanation =
    ok (record { issue_id = "7"; title = "Boom"; permalink = ""; answer = "A null." })
reply t = fail (api_error 503 "down")

abbrev pub server : {S : Type 0} → Env S ℕ
server = record { call = λ t q w. (reply t, suc w); meanwhile = λ w s. s }

pub server-IsQuiet : {S : Type 0} → IsQuiet {S = S} {W = ℕ} server
server-IsQuiet w s = refl

abbrev pub at_rest : {S : Type 0} → S → Machine S ℕ
at_rest s = record { ui = s; world = 0 }

abbrev pub signed_in : Session
signed_in = record { access = some "t1"; refresh = some "r1"; role = some "admin" }

abbrev pub openai_provider : Provider
openai_provider = record {
  id = "p1";
  name = "OpenAI";
  type = "openai";
  auth_mode = "api_key";
  has_api_key = true;
  base_url = none;
  default_model = "gpt-4o";
  is_active = true;
  light_model = none;
  heavy_model = none;
  route_threshold_tokens = 0;
  connected = false;
  own_key = false;
}

abbrev pub scan : Document
scan = record {
  id = "d1";
  filename = text "scan.png";
  mime_type = text "image/png";
  size_bytes = 10;
  sha256 = "";
  indexed = false;
  team_id = none;
  created_at = "";
}
