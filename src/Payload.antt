-- ===== src/Payload.antt =====
-- How the client writes the body of a request: optional fields, and the requests of `api`.
use netfleet.Common.{
  Option, none, some, Bool, true, false, List, [], ◌∷◌, ◌++◌, Text, String, codes,
}
use netfleet.Json.{Json, Fields, Items}
use netfleet.Session.Client.{Env, Method, Request}

-- A field `f?: T | null`.
pub data Optional {ℓ} (A : Type ℓ) : Type ℓ where
  undefined : Optional A
  null : Optional A
  given : A → Optional A

-- A field of an object literal; JSON.stringify leaves out one that is undefined.
abbrev pub opt {ℓ} : {A : Type ℓ} → (A → Json) → String → Optional A → Fields → Fields
opt write key undefined fs = fs
opt write key null fs = Fields.field (codes key) Json.null fs
opt write key (given a) fs = Fields.field (codes key) (write a) fs

abbrev pub req : String → Json → Fields → Fields
req key v fs = Fields.field (codes key) v fs

-- `T | null`
abbrev pub nullable {ℓ} : {A : Type ℓ} → (A → Json) → Option A → Json
nullable write none = Json.null
nullable write (some a) = write a

abbrev pub texts : List Text → Items
texts [] = Items.nil
texts (t ∷ ts) = Items.cons (Json.text t) (texts ts)

-- `T[]`, of objects
abbrev pub objects {ℓ} : {A : Type ℓ} → (A → Fields) → List A → Items
objects write [] = Items.nil
objects write (a ∷ more) = Items.cons (Json.object (write a)) (objects write more)

-- `v ? { key: v } : undefined`, and `if (v) params.set(key, v)`
abbrev pub text_param : String → Option Text → List (Text × Text)
text_param key none = []
text_param key (some []) = []
text_param key (some (c ∷ t)) = (codes key, c ∷ t) ∷ []

-- `if (v !== undefined) params.set(key, String(v))`
abbrev pub given_param {ℓ} : {A : Type ℓ} → (A → Text) → String → Option A → List (Text × Text)
given_param write key none = []
given_param write key (some a) = (codes key, write a) ∷ []

-- `api.METHOD(path)`: ky joins the prefix and the path by a slash; 30 seconds are the default.
abbrev pub call : Env → Method → Text → Request
call env method path = record {
  method = method;
  url = env.api_base ++ b'/' ∷ path;
  search = [];
  json = none;
  headers = [];
  timeout = 30000;
  bearer = none;
}

abbrev pub with_json : Fields → Request → Request
with_json fs r = record r { json = some (Json.object fs) }

abbrev pub with_search : List (Text × Text) → Request → Request
with_search ps r = record r { search = ps }

-- `String(b)`
abbrev pub bool_text : Bool → Text
bool_text true = codes "true"
bool_text false = codes "false"

-- `{ ...a, …b }`, for objects without a common key.
abbrev pub spread : Fields → Fields → Fields
spread Fields.end fs = fs
spread (Fields.field k v rest) fs = Fields.field k v (spread rest fs)
