-- ===== src/ScVal.antt =====
-- The Soroban values of src/komet/traceEvents.ts (`ScValJson`) and the identity key that
-- src/soroban/scvalJson.ts gives them (`scvalKey`).
pub mod Render
use stellar_debugger.Prelude.{String}
use Prim.Native.String.{◌++◌}

-- A value by its `type`. The texts are what the source interpolates: an error's type and code, an
-- address's kind and value, and the `String(value.value)` of any other type, which comes first.
mutual
  pub data ScVal : Type 0 where
    void : ScVal
    error : String → String → ScVal
    address : String → String → ScVal
    vec : ScVals → ScVal
    map : Entries → ScVal
    scalar : String → String → ScVal

  pub data ScVals : Type 0 where
    nil : ScVals
    cons : ScVal → ScVals → ScVals

  pub data Entries : Type 0 where
    end : Entries
    entry : ScVal → ScVal → Entries → Entries

-- `join(',')` puts a comma between two elements.
unfoldable mutual
  pub scval_key : ScVal → String
  scval_key void = "void"
  scval_key (error kind code) = "error:" ++ (kind ++ (":" ++ code))
  scval_key (address kind value) = "address:" ++ (kind ++ (":" ++ value))
  scval_key (vec items) = "vec[" ++ (items_key items ++ "]")
  scval_key (map entries) = "map{" ++ (entries_key entries ++ "}")
  scval_key (scalar type text) = type ++ (":" ++ text)

  pub items_key : ScVals → String
  items_key nil = ""
  items_key (cons v nil) = scval_key v
  items_key (cons v (cons w rest)) = scval_key v ++ ("," ++ items_key (cons w rest))

  pub entries_key : Entries → String
  entries_key end = ""
  entries_key (entry k v end) = scval_key k ++ ("=>" ++ scval_key v)
  entries_key (entry k v (entry k' v' rest)) =
      scval_key k ++ ("=>" ++ (scval_key v ++ ("," ++ entries_key (entry k' v' rest))))
