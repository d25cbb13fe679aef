-- ===== src/Schemas/Tests.antt =====
-- The first forms of the pages, and a parser of two numbers.
use rafineai_self_hosted.Prelude.{String, [], true, none, ◌≡◌, refl, ◌===◌, if◌then◌else◌}
use rafineai_self_hosted.Json.{Json, null, num}
use rafineai_self_hosted.Pages.Providers.{initial_form, payload}
use rafineai_self_hosted.Pages.Providers.View.{types, modes}
use rafineai_self_hosted.Pages.Users.{Users, user_fields}
use rafineai_self_hosted.Pages.Users.View.{roles}
use rafineai_self_hosted.Schemas.{fits, user_create, provider_create, conforms}
use rafineai_self_hosted.Schemas.Bodies.{user_fields-conforms, payload-conforms}

abbrev parse : String → Json
parse s = if s === "60" then num 60 else null

abbrev entered : Users
entered = record {
  users = [];
  email = "ada@example.com";
  password = "";
  role = "admin";
  rpm = "60";
  daily = "";
  error = "";
  created = none;
}

user_fields-conforms_example : conforms user_create (user_fields parse entered) ≡ true
unfolding fits roles
user_fields-conforms_example = user_fields-conforms parse entered refl refl refl

payload-conforms_example : conforms provider_create (payload parse initial_form) ≡ true
unfolding fits types modes
payload-conforms_example = payload-conforms parse initial_form refl refl refl
