-- ===== src/RedisQueue/Owned/Pointers.antt =====
-- What releasing and setting the pointers of several players do to each pointer.
use legacy_match_platform.Common.{
  String, true, false, none, some, List, [], ◌∷◌, includes, ◌==◌, String_eq, ◌≡◌, refl, arith,
  if◌then◌else◌, eq_iff, inl, inr, Bool-cases,
}
use legacy_match_platform.Common.JsMap
use legacy_match_platform.Common.JsMap.{JsMap, get-set, get-delete}
use legacy_match_platform.RedisQueue.{release_pointers}
use legacy_match_platform.RedisQueue.Join.{point_to}

release_one : String → String → JsMap String → JsMap String
release_one id m ps = elim (JsMap.get m ps) [
  | none ↦ ps
  | some held ↦ if held == id then JsMap.delete m ps else ps
]

release_one-get :
    (id m k x : String) (ps : JsMap String)
    → JsMap.get k (release_one id m ps) ≡ some x
    → JsMap.get k ps ≡ some x
unfolding release_one
release_one-get id m k x ps h = ground (arith, get-delete m k ps)

release_one-keeps :
    (id m k x : String) (ps : JsMap String)
    → JsMap.get k ps ≡ some x
    → (x == id) ≡ false
    → JsMap.get k (release_one id m ps) ≡ some x
unfolding release_one
release_one-keeps id m k x ps h n = ground (arith, get-delete m k ps, eq_iff m k)

-- A release makes up no pointer.
pub release_pointers-get :
    (id k x : String) (ms : List String) (ps : JsMap String)
    → JsMap.get k (release_pointers id ms ps) ≡ some x
    → JsMap.get k ps ≡ some x
unfolding release_pointers release_one
release_pointers-get id k x [] ps h = h
release_pointers-get id k x (m ∷ ms) ps h =
    release_one-get id m k x ps (release_pointers-get id k x ms (release_one id m ps) h)

-- A pointer to another ticket stays.
pub release_pointers-keeps :
    (id k x : String) (ms : List String) (ps : JsMap String)
    → JsMap.get k ps ≡ some x
    → (x == id) ≡ false
    → JsMap.get k (release_pointers id ms ps) ≡ some x
unfolding release_pointers release_one
release_pointers-keeps id k x [] ps h n = h
release_pointers-keeps id k x (m ∷ ms) ps h n =
    release_pointers-keeps id k x ms (release_one id m ps) (release_one-keeps id m k x ps h n) n

release_one-none :
    (id m k : String) (ps : JsMap String)
    → JsMap.get k ps ≡ none
    → JsMap.get k (release_one id m ps) ≡ none
unfolding release_one
release_one-none id m k ps h = ground (arith, get-delete m k ps)

release_pointers-none :
    (id k : String) (ms : List String) (ps : JsMap String)
    → JsMap.get k ps ≡ none
    → JsMap.get k (release_pointers id ms ps) ≡ none
unfolding release_pointers release_one
release_pointers-none id k [] ps h = h
release_pointers-none id k (m ∷ ms) ps h =
    release_pointers-none id k ms (release_one id m ps) (release_one-none id m k ps h)

release_one_self :
    (id m k : String) (ps : JsMap String)
    → JsMap.get k ps ≡ some id
    → (m == k) ≡ true
    → JsMap.get k (release_one id m ps) ≡ none
unfolding release_one
release_one_self id m k ps h e = ground (arith, get-delete m k ps, eq_iff m k, eq_iff id id)

release_one-other :
    (id m k : String) (ps : JsMap String)
    → JsMap.get k ps ≡ some id
    → (m == k) ≡ false
    → JsMap.get k (release_one id m ps) ≡ some id
unfolding release_one
release_one-other id m k ps h e = ground (arith, get-delete m k ps)

-- The pointers of the listed players to the ticket are gone.
pub release_pointers-gone :
    (id k : String) (ms : List String) (ps : JsMap String)
    → includes ms k ≡ true
    → JsMap.get k ps ≡ some id
    → JsMap.get k (release_pointers id ms ps) ≡ none
unfolding release_pointers release_one
release_pointers-gone id k [] ps i h = absurd (ground arith)
release_pointers-gone id k (m ∷ ms) ps i h = elim (Bool-cases (m == k)) [
  | inl e ↦ release_pointers-none id k ms (release_one id m ps) (release_one_self id m k ps h e)
  | inr e ↦
      release_pointers-gone id k ms (release_one id m ps) (ground arith)
        (release_one-other id m k ps h e)
]

pub get-point_to :
    (id k : String) (ms : List String) (ps : JsMap String)
    → JsMap.get k (point_to id ms ps) ≡ (if includes ms k then some id else JsMap.get k ps)
unfolding point_to
get-point_to id k [] ps = refl
get-point_to id k (m ∷ ms) ps =
    ground (arith, get-point_to id k ms (JsMap.set m id ps), get-set m k id ps)
