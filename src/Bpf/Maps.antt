-- ===== src/Bpf/Maps.antt =====
-- github.com/cilium/ebpf: a map in the kernel, as the manager uses it. The library is a parameter.
use x.Base.{ℕ, ◌≡◌, ◌↔◌, Bool, true, List, Option, none, some, if◌then◌else◌, Bytes, In, is_some}
use x.Types.{PolicyConfig}

-- What `Map.Delete` comes to; `missing` is `ErrKeyNotExist`.
pub data Deletion (M : Type 0) : Type 0 where
  deleted : M → Deletion M
  missing : Deletion M
  failed : Deletion M

-- `Map.Put`, `none` for an error; `Map.Delete`; and a walk by `Map.Iterate`: the keys that it visits, and
-- whether it ends with no error.
pub record MapOps (K V : Type 0) : Type 1 where
  pub Map : Type 0
  pub put : Map → K → V → Option Map
  pub delete : Map → K → Deletion Map
  pub keys : Map → List K × Bool

-- What is documented of a hash map: `get` is what the kernel finds under a key.
pub record MapLaws {K V : Type 0} (ops : MapOps K V) (eq : K → K → Bool) : Type 1 where
  pub get : ops.Map → K → Option V
  pub get-put :
      (m m' : ops.Map) (k j : K) (v : V)
      → ops.put m k v ≡ some m'
      → get m' j ≡ (if eq k j then some v else get m j)
  pub get-delete :
      (m m' : ops.Map) (k j : K)
      → ops.delete m k ≡ deleted m'
      → get m' j ≡ (if eq k j then none else get m j)
  pub get-missing : (m : ops.Map) (k : K) → ops.delete m k ≡ missing → get m k ≡ none
  pub mem-keys :
      (m : ops.Map) (ks : List K) (k : K)
      → ops.keys m ≡ (ks, true)
      → In k ks ↔ (is_some (get m k) ≡ true)

-- The maps of the two BPF objects, by the type of their keys and values.
pub record Ebpf : Type 1 where
  pub numbers : MapOps ℕ ℕ
  pub names : MapOps Bytes ℕ
  pub policies : MapOps ℕ PolicyConfig
