-- ===== src/Json.antt =====
-- The values that `JSON.parse` and `res.json()` give, with non-negative integers for numbers, and the
-- members that the client reads. Also the request bodies that the pages build.
use rafineai_self_hosted.Prelude.{
  ℕ, String, Text, Bool, Option, none, some, List, [], ◌∷◌, ◌===◌, if◌then◌else◌,
}

mutual
  pub data Json : Type 0 where
    null : Json
    bool : Bool → Json
    num : ℕ → Json
    str : String → Json
    words : Text → Json
    arr : Items → Json
    obj : Fields → Json

  pub data Items : Type 0 where
    nil : Items
    cons : Json → Items → Items

  pub data Fields : Type 0 where
    end : Fields
    field : String → Json → Fields → Fields

-- A later field of the same name would win in JavaScript; the platform's parser leaves one.
unfoldable pub lookup : String → Fields → Option Json
lookup k end = none
lookup k (field j v fs) = if j === k then some v else lookup k fs

-- What reading a member gives: a value, `undefined`, or a TypeError (of null).
pub data Member : Type 0 where
  value : Json → Member
  undefined type_error : Member

abbrev member_of : Option Json → Member
member_of none = undefined
member_of (some v) = value v

-- v.k
unfoldable pub member : String → Json → Member
member k null = type_error
member k (obj fs) = member_of (lookup k fs)
member k _ = undefined

-- v?.k, of a value that may be missing
unfoldable pub member? : String → Member → Member
unfolding member
member? k (value null) = undefined
member? k (value v) = member k v
member? k _ = undefined

abbrev pub entries : List (String × Json) → Fields
entries [] = end
entries ((k, v) ∷ fs) = field k v (entries fs)

-- JSON.stringify({ … })
abbrev pub object : List (String × Json) → Json
object fs = obj (entries fs)

abbrev items : {A : Type 0} → (A → Json) → List A → Items
items f [] = nil
items f (x ∷ xs) = cons (f x) (items f xs)

abbrev pub array : {A : Type 0} → (A → Json) → List A → Json
array f xs = arr (items f xs)

-- A value or null.
abbrev pub or_null : {A : Type 0} → (A → Json) → Option A → Json
or_null f none = null
or_null f (some a) = f a
