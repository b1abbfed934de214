-- ===== src/Bpf/Hooks.antt =====
-- What a load of the LSM object leaves, whichever programs could be attached.
use mathlib.Core.List.{append_assoc}
use x.Base.{
  ap, sym, ◌∙◌, ℕ, ◌≡◌, refl, Bool, true, false, ◌&&◌, ◌||◌, List, [], ◌∷◌, ◌++◌, Option, none,
  some, arith, is_some, if◌then◌else◌,
}
use x.Bpf.Maps.{Ebpf}
use x.Bpf.Manager.{is_lsm_loaded}
use x.Bpf.Lifecycle.{
  Loader, LsmObjects, LsmLoad, load_lsm, is_lsm_available, attach_hook, attach_lsm, assign_lsm,
  open_lsm_reader,
}

module _ (e : Ebpf) where
  -- `IsLSMLoaded` after `LoadLSM`, whichever hooks were attached.
  load_lsm-is_lsm_loaded :
      (m : Bool) (o : LsmLoad e) (a : Loader e)
      → is_lsm_loaded e (load_lsm e m o a).0.manager ≡ (
          (is_lsm_available o.lsm && m && o.spec_loaded && is_some o.objects)
          || is_lsm_loaded e a.manager)
  unfolding load_lsm is_lsm_loaded
  load_lsm-is_lsm_loaded m o a = ground arith

  -- The link of a program that the object has, if the kernel attached it.
  abbrev link_of : Bool → Option ℕ → List ℕ
  link_of false outcome = []
  link_of true none = []
  link_of true (some l) = l ∷ []

  -- The links that a load attaches.
  abbrev pub links_of : LsmLoad e → Option (LsmObjects e) → List ℕ
  links_of o none = []
  links_of o (some objs) =
      link_of objs.has_ptrace_access_check o.ptrace ++ link_of objs.has_file_open o.file_open

  attach_hook-attached :
      (has : Bool) (outcome : Option ℕ) (a : Loader e)
      → (attach_hook e has outcome a).attached ≡ link_of has outcome ++ a.attached
  attach_hook-attached false outcome a = refl
  attach_hook-attached true none a = refl
  attach_hook-attached true (some l) a = refl

  open_lsm_reader-attached :
      (has created : Bool) (a : Loader e)
      → (open_lsm_reader e has created a).0.attached ≡ a.attached
  open_lsm_reader-attached false created a = refl
  open_lsm_reader-attached true created a = refl

  attach_lsm-attached :
      (o : LsmLoad e) (objs : Option (LsmObjects e)) (a : Loader e)
      → (attach_lsm e o objs a).0.attached ≡ links_of o objs ++ a.attached
  attach_lsm-attached o none a = refl
  attach_lsm-attached o (some objs) a =
      let b = attach_hook e objs.has_file_open o.file_open (assign_lsm e objs a) in
      open_lsm_reader-attached objs.has_events o.reader_created
        (attach_hook e objs.has_ptrace_access_check o.ptrace b)
      ∙ attach_hook-attached objs.has_ptrace_access_check o.ptrace b
      ∙ ap (λ ls. link_of objs.has_ptrace_access_check o.ptrace ++ ls)
          (attach_hook-attached objs.has_file_open o.file_open (assign_lsm e objs a))
      ∙ sym (
          append_assoc (link_of objs.has_ptrace_access_check o.ptrace)
            (link_of objs.has_file_open o.file_open) a.attached)

  open_lsm_reader-error :
      (has created : Bool) (a b : Loader e)
      → (open_lsm_reader e has created a).1 ≡ (open_lsm_reader e has created b).1
  open_lsm_reader-error false created a b = refl
  open_lsm_reader-error true created a b = refl

  attach_lsm-error :
      (o : LsmLoad e) (objs : Option (LsmObjects e)) (a : Loader e) (file_open ptrace : Option ℕ)
      → (attach_lsm e o objs a).1
        ≡ (attach_lsm e (record o { file_open = file_open; ptrace = ptrace }) objs a).1
  attach_lsm-error o none a file_open ptrace = refl
  attach_lsm-error o (some objs) a file_open ptrace =
      open_lsm_reader-error objs.has_events o.reader_created _ _

  -- Whatever `LoadLSM` meets: `IsLSMLoaded` says afterwards that the LSM is available and its object was
  -- loaded, or that one was before, whichever programs the kernel then attached; the links that it adds are
  -- those that the kernel gave for the programs of the object, which may be none; and its error does not
  -- depend on them.
  pub load_lsm-attached :
      (m : Bool) (o : LsmLoad e) (a : Loader e) (file_open ptrace : Option ℕ)
      → let (a', err) = load_lsm e m o a in
        (is_lsm_loaded e a'.manager ≡ (
          (is_lsm_available o.lsm && m && o.spec_loaded && is_some o.objects)
          || is_lsm_loaded e a.manager))
        × (a'.attached ≡ (
            if is_lsm_available o.lsm && m && o.spec_loaded
            then links_of o o.objects ++ a.attached
            else a.attached))
        × (err ≡ (load_lsm e m (record o { file_open = file_open; ptrace = ptrace }) a).1)
  unfolding load_lsm
  load_lsm-attached m o a file_open ptrace = (
    load_lsm-is_lsm_loaded m o a,
    ground (arith, attach_lsm-attached o o.objects a),
    ground (arith, attach_lsm-error o o.objects a file_open ptrace),
  )
