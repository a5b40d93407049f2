-- ===== src/Value/Dict.antt =====
-- The operations of a dict of values, with their laws.
use sudo_agent.Base.{
  String, ◌≡◌, refl, Bool, true, false, Option, none, some, arith, ◌==◌, eq_iff, is_some,
  if◌then◌else◌,
}
use sudo_agent.Value.{Value, null, dict, Fields, end, field}

abbrev pub lookup : String → Fields → Option Value
lookup k end = none
lookup k (field j v d) = if j == k then some v else lookup k d

-- `d.get(k)`
abbrev pub get : String → Fields → Value
get k end = null
get k (field j v d) = if j == k then v else get k d

-- `v.get(k)`, where `v` is a dict
abbrev pub at : String → Value → Value
at k (dict d) = get k d
at k v = null

-- `d[k] = v`
abbrev pub set : String → Value → Fields → Fields
set k v end = field k v end
set k v (field j w d) = if j == k then field j v d else field j w (set k v d)

-- `d.pop(k, None)`
abbrev pub pop : String → Fields → Fields
pop k end = end
pop k (field j w d) = if j == k then d else field j w (pop k d)

-- `d.update(e)`
abbrev pub update : Fields → Fields → Fields
update d end = d
update d (field k v e) = update (set k v d) e

-- `k in d`
abbrev pub has : String → Fields → Bool
has k d = is_some (lookup k d)

pub get-set :
    (k j : String) (v : Value) (d : Fields) → get j (set k v d) ≡ (if k == j then v else get j d)
get-set k j v end = refl
get-set k j v (field i w d) = ground (arith, eq_iff k j, eq_iff i k, eq_iff i j, get-set k j v d)

pub has-set :
    (k j : String) (v : Value) (d : Fields) → has j (set k v d) ≡ (if k == j then true else has j d)
has-set k j v end = ground arith
has-set k j v (field i w d) = ground (arith, eq_iff k j, eq_iff i k, eq_iff i j, has-set k j v d)

pub set-set : (k : String) (u v : Value) (d : Fields) → set k u (set k v d) ≡ set k u d
set-set k u v end = ground (arith, eq_iff k k)
set-set k u v (field i w d) = ground (arith, eq_iff i k, set-set k u v d)

-- A key that was added last is taken away again.
pub pop-set_new : (k : String) (v : Value) (d : Fields) → has k d ≡ false → pop k (set k v d) ≡ d
pop-set_new k v end h = ground (arith, eq_iff k k)
pop-set_new k v (field i w d) h = ground (arith, eq_iff i k, pop-set_new k v d)

pub pop_absent : (k : String) (d : Fields) → has k d ≡ false → pop k d ≡ d
pop_absent k end h = refl
pop_absent k (field i w d) h = ground (arith, eq_iff i k, pop_absent k d)

pub set-pop :
    (k j : String) (v : Value) (d : Fields)
    → (k == j) ≡ false
    → set k v (pop j d) ≡ pop j (set k v d)
set-pop k j v end h = ground (arith, eq_iff k j)
set-pop k j v (field i w d) h =
    ground (arith, eq_iff i k, eq_iff i j, eq_iff k j, set-pop k j v d h)
