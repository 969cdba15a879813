-- ===== src/Origin.antt =====
-- src/client.rs: `Origin`, the key of the caches; src/request.rs: `Origin::from_uri`. A hash map is
-- the function from its keys to their entries, and `http::Uri` is what its accessors return.
use mechanics_http_client.Prelude.{
  ℕ, ◌≤◌, ◌≡◌, ◌↔◌, refl, Bool, true, false, not, ◌&&◌, Option, none, some, ◌∷◌, arith, ◌==◌,
  if◌then◌else◌, unwrap_or,
}
use mechanics_http_client.Text.{Text, u16_max, codes, str_eq}

pub record Origin : Type 0 where
  pub host : Text
  pub port : ℕ

-- `http::Uri`
pub record Uri : Type 0 where
  pub scheme_str : Option Text
  pub host : Option Text
  pub port_u16 : Option ℕ
  pub path : Text

unfoldable pub origin_of : Option Text → Option Text → Option ℕ → Option Origin
origin_of none host port = none
origin_of (some scheme) none port = none
origin_of (some scheme) (some host) port =
    if not (str_eq scheme (codes "https"))
    then none
    else some (record { host = host; port = unwrap_or port 443 })

-- `Origin::from_uri`
unfoldable pub from_uri : Uri → Option Origin
unfolding origin_of
from_uri uri = origin_of uri.scheme_str uri.host uri.port_u16

-- `Origin::eq`
unfoldable pub origin_eq : Origin → Origin → Bool
unfolding str_eq
origin_eq a b = str_eq a.host b.host && a.port == b.port

-- `HashMap<Origin, V>`
abbrev pub HashMap {ℓ} : Type ℓ → Type ℓ
HashMap V = Origin → Option V

module _ {ℓ} {V : Type ℓ} where
  unfoldable pub insert : HashMap V → Origin → V → HashMap V
  insert m k v = λ j. if origin_eq k j then some v else m j

  unfoldable pub remove : HashMap V → Origin → HashMap V
  remove m k = λ j. if origin_eq k j then none else m j

pub str_eq_iff : (s t : Text) → (str_eq s t ≡ true) ↔ (s ≡ t)
unfolding str_eq
str_eq_iff (x ∷ s) (y ∷ t) = ground (arith, str_eq_iff s t)
str_eq_iff _ _ = ground arith

pub origin_eq_iff : (a b : Origin) → (origin_eq a b ≡ true) ↔ (a ≡ b)
unfolding origin_eq
origin_eq_iff a b = ground (arith, str_eq_iff a.host b.host)

pub origin_eq_refl : (a : Origin) → origin_eq a a ≡ true
origin_eq_refl a = (origin_eq_iff a a).1 refl

module _ {ℓ} {V : Type ℓ} (m : HashMap V) (k : Origin) where
  pub get-insert_self : (v : V) → insert m k v k ≡ some v
  unfolding insert
  get-insert_self v = rw (origin_eq_refl k)

  pub get-remove_self : remove m k k ≡ none
  unfolding remove
  get-remove_self = rw (origin_eq_refl k)

  pub get-insert_ne : (j : Origin) (v : V) → origin_eq k j ≡ false → insert m k v j ≡ m j
  unfolding insert
  get-insert_ne j v h = rw h

  pub get-remove_ne : (j : Origin) → origin_eq k j ≡ false → remove m k j ≡ m j
  unfolding remove
  get-remove_ne j h = rw h

-- The port of the uri's origin has 16 bits, as the type of `Uri::port_u16` says.
abbrev pub PortFits : Uri → Type 0
PortFits uri = (origin : Origin) → from_uri uri ≡ some origin → origin.port ≤ u16_max
