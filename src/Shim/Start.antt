-- ===== src/Shim/Start.antt =====
-- How the shim starts the application, or refuses to.
use x.Base.{
  ◌≡◌, ◌≢◌, refl, Bool, true, false, List, [], ◌∷◌, Option, some, arith, Bool-cases, Option-cases,
  inl, inr, Bytes,
}
use x.Shim.{
  parse_on_error, Fetched, response, failed, Ending, prints_version, exits, execs, Flags, finish,
  main, merge_env,
}

-- What the environment of an application that was started is.
abbrev pub IsJustified : Flags → Fetched → List Bytes → List Bytes → Type 0
IsJustified flags (response r) environ env = env ≡ merge_env environ r.env
IsJustified flags (failed e) environ env =
    (parse_on_error flags.on_error ≡ some false) × (env ≡ merge_env environ [])

-- The application that a run may start.
abbrev pub MayStart :
    Flags → (Bytes → Option Bytes) → (Bytes → Fetched) → List Bytes → Ending → Type 0
MayStart flags look_path fetch environ prints_version = flags.show_version ≡ true
MayStart flags look_path fetch environ (exits code) = code ≢ 0
MayStart flags look_path fetch environ (execs path argv env) =
    (name : Bytes) × (args : List Bytes) × (flags.argv ≡ name ∷ args)
    × (argv ≡ name ∷ args)
    × (look_path name ≡ some path)
    × IsJustified flags (fetch path) environ env

module _ (flags : Flags) (look_path : Bytes → Option Bytes) (fetch : Bytes → Fetched)
    (environ : List Bytes) where
  finish-MayStart :
      (fail_closed : Bool) (name path : Bytes) (args : List Bytes) (f : Fetched)
      → flags.argv ≡ name ∷ args
      → parse_on_error flags.on_error ≡ some fail_closed
      → look_path name ≡ some path
      → fetch path ≡ f
      → MayStart flags look_path fetch environ (finish fail_closed f path (name ∷ args) environ)
  unfolding finish
  finish-MayStart fail_closed name path args (response r) a p l h =
      (name, args, a, refl, l, rw h refl)
  finish-MayStart true name path args (failed e) a p l h = ground arith
  finish-MayStart false name path args (failed e) a p l h = (name, args, a, refl, l, rw h (p, refl))

  of_result :
      (x : Ending)
      → main flags look_path fetch environ ≡ x
      → MayStart flags look_path fetch environ x
      → MayStart flags look_path fetch environ (main flags look_path fetch environ)
  of_result x e h = rw e h

  argv-MayStart :
      (argv : List Bytes)
      → flags.argv ≡ argv
      → flags.show_version ≡ false
      → MayStart flags look_path fetch environ (main flags look_path fetch environ)
  unfolding main
  argv-MayStart [] a v = of_result (exits 2) (rw (v, a) refl) (ground arith)
  argv-MayStart (name ∷ args) a v = elim (Option-cases (parse_on_error flags.on_error)) [
    | inl p ↦ of_result (exits 2) (rw (v, a, p) refl) (ground arith)
    | inr (fail_closed, p) ↦ elim (Option-cases (look_path name)) [
      | inl l ↦ of_result (exits 1) (rw (v, a, p, l) refl) (ground arith)
      | inr (path, l) ↦
          of_result (finish fail_closed (fetch path) path (name ∷ args) environ)
            (rw (v, a, p, l) refl)
            (finish-MayStart fail_closed name path args (fetch path) a p l refl)
    ]
  ]

  pub main-MayStart : MayStart flags look_path fetch environ (main flags look_path fetch environ)
  unfolding main
  main-MayStart = elim (Bool-cases flags.show_version) [
    | inl v ↦ of_result prints_version (rw v refl) v
    | inr v ↦ argv-MayStart flags.argv refl v
  ]
