-- ===== src/Prelude/Any.antt =====
-- Go's `any` as this program uses it: what `json.Unmarshal` produces, and the `[]string` and
-- `map[string]string` that Go code may store beside it. A number is never inspected, so it stands as
-- its text. A JSON object is a `map[string]any`, here an association list of its own.
use Prim.Native.String.{String}
use mathlib.Core.Path.{◌≡◌, refl}
use mathlib.Core.Logic.{◌≢◌}
use mathlib.Core.Bool.{Bool}
use mathlib.Core.Option.{Option, none, some}
use mathlib.Core.List.{List}
use native.Mathlib.Omega.{arith}
use text.Mathlib.Text.{◌==◌}
use text.Mathlib.TextEquality.{eq_iff}
use dra_driver_spyre.Prelude.Tests.{if◌then◌else◌}
use dra_driver_spyre.Prelude.Maps.{Map}

mutual
  pub data Any : Type 0 where
    null : Any
    bool : Bool → Any
    num : String → Any
    str : String → Any
    arr : Items → Any
    obj : Fields → Any
    strs : List String → Any
    str_map : Map String → Any

  pub data Items : Type 0 where
    nil : Items
    item : Any → Items → Items

  pub data Fields : Type 0 where
    empty : Fields
    field : String → Any → Fields → Fields

-- v, ok := m[k], and m[k] = v
unfoldable pub get : String → Fields → Option Any
get k empty = none
get k (field j v m) = if j == k then some v else get k m

unfoldable pub put : String → Any → Fields → Fields
put k v empty = field k v empty
put k v (field j w m) = if j == k then field k v m else field j w (put k v m)

pub get-put :
    (k j : String) (v : Any) (m : Fields) → get j (put k v m) ≡ (if k == j then some v else get j m)
unfolding get put
get-put k j v empty = refl
get-put k j v (field i w m) = ground (arith, eq_iff k j, eq_iff i k, eq_iff i j, get-put k j v m)

pub get-put_self : (k : String) (v : Any) (m : Fields) → get k (put k v m) ≡ some v
get-put_self k v m = ground (arith, get-put k k v m, eq_iff k k)

pub get-put_ne : (k j : String) (v : Any) (m : Fields) → k ≢ j → get j (put k v m) ≡ get j m
get-put_ne k j v m h = ground (arith, get-put k j v m, eq_iff k j)
