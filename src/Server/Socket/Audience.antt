-- ===== src/Server/Socket/Audience.antt =====
-- Who may connect to the secret socket while `Listen` sets it up, and what it leaves open.
use x.Base.{
  ℕ, ◌-◌, ◌/◌, ◌%◌, ◌^◌, ◌<◌, ◌≡◌, refl, sym, inl, inr, Bool, true, false, not, ◌||◌, [], Option,
  none, some, arith, if◌then◌else◌, is_empty, ◌==◌, In, All, All_of_In, subst, Bool-cases,
}
use x.Text.{pos, negsuc}
use x.Server.Socket.{
  SocketConfig, File, ListenError, Removal, removed, missing, failed, Host, Calls, Resolved,
  resolved, lookup_gid, chowned, place, close_listener, set_mode, set_group, bind, open_socket,
  share_directory, listen, socket_mode_failed, socket_group_failed, directory_group_failed,
  directory_mode_failed, directory_mode, directory_failed,
}

-- To connect is to write: bit 0020 for the group, and bit 0002 for others.
abbrev pub beyond_owner : File → Bool
beyond_owner f = (f.mode / 16 % 2 == 1) || (f.mode / 2 % 2 == 1)

module _ (c : SocketConfig) (k : Calls) (n : ℕ) (small : n < 2 ^ 32 - 1) where
  -- Where more than its owner may connect, the socket is as configured.
  abbrev IsIntended : File → Type 0
  IsIntended f = beyond_owner f ≡ true → f ≡ record { mode = c.mode; gid = n }

  abbrev AllIntended : Host × Option ListenError → Type 0
  AllIntended r = All IsIntended r.0.seen

  private_File : (f : File) → beyond_owner f ≡ false → IsIntended f
  private_File f p b = absurd (ground arith)

  set_mode-AllIntended :
      (f : File) (h : Host) → f.gid ≡ n → All IsIntended h.seen → AllIntended (set_mode c k f h)
  unfolding set_mode
  set_mode-AllIntended f h q a = chosen k.socket_chmod
    where
      chosen :
          (b : Bool)
          → AllIntended (
              if not b
              then (close_listener h, some socket_mode_failed)
              else (record (place (record f { mode = c.mode }) h) { has_listener = true }, none))
      chosen false = a
      chosen true = ((λ b. ground (arith, q)), a)

  set_group-AllIntended :
      (f : File) (h : Host)
      → beyond_owner f ≡ false
      → All IsIntended h.seen
      → AllIntended (set_group c k (pos n) f h)
  set_group-AllIntended f h p a = chosen k.socket_chown
    where
      f' : File
      f' = record f { gid = chowned (pos n) f.gid }

      chosen :
          (b : Bool)
          → AllIntended (
              if not b
              then (close_listener h, some socket_group_failed)
              else set_mode c k f' (place f' h))
      chosen false = a
      chosen true =
          set_mode-AllIntended f' (place f' h) (ground (arith, small)) (private_File f' p, a)

  bind-AllIntended :
      (o : Option File) (h : Host)
      → ((f : File) → o ≡ some f → beyond_owner f ≡ false)
      → All IsIntended h.seen
      → AllIntended (bind c k o (pos n) h)
  bind-AllIntended none h p a = a
  bind-AllIntended (some f) h p a =
      set_group-AllIntended f (record (place f h) { listening = true }) (p f refl)
        (private_File f (p f refl), a)

  open_socket-AllIntended :
      (r : Removal) (h : Host)
      → ((f : File) → k.bound ≡ some f → beyond_owner f ≡ false)
      → All IsIntended h.seen
      → AllIntended (open_socket c k r (pos n) h)
  open_socket-AllIntended removed h p a = bind-AllIntended k.bound (record h { socket = none }) p a
  open_socket-AllIntended missing h p a = bind-AllIntended k.bound h p a
  open_socket-AllIntended failed h p a = a

  share_directory-AllIntended :
      (h : Host)
      → ((f : File) → k.bound ≡ some f → beyond_owner f ≡ false)
      → All IsIntended h.seen
      → AllIntended (share_directory c k (resolved (pos n)) h)
  share_directory-AllIntended h p a = chosen k.directory_chown k.directory_chmod
    where
      h' : Host
      h' = record h { directory = record h.directory { gid = chowned (pos n) h.directory.gid } }

      chosen :
          (b d : Bool)
          → AllIntended (
              if not b
              then (h, some directory_group_failed)
              else if not d
              then (h', some directory_mode_failed)
              else open_socket c k k.stale
                  (pos n)
                  (record h' { directory = record h'.directory { mode = directory_mode } }))
      chosen false d = a
      chosen true false = a
      chosen true true = open_socket-AllIntended k.stale _ p a

  listen-AllIntended :
      (h : Host)
      → is_empty c.group ≡ false
      → lookup_gid k.group_of c.group ≡ resolved (pos n)
      → ((f : File) → k.bound ≡ some f → beyond_owner f ≡ false)
      → All IsIntended h.seen
      → AllIntended (listen c k h)
  unfolding listen
  listen-AllIntended h g q p a = elim (Bool-cases k.directory_made) [
    | inr d ↦ ground (arith, a)
    | inl d ↦ subst AllIntended (sym (shared d)) (share_directory-AllIntended h p a)
  ]
    where
      chosen :
          (b d : Bool) (r : Resolved)
          → b ≡ true
          → d ≡ false
          → r ≡ resolved (pos n)
          → (if not b
              then (h, some directory_failed)
              else if d
              then open_socket c k k.stale (negsuc 0) h
              else share_directory c k r h)
            ≡ share_directory c k (resolved (pos n)) h
      chosen b d r x y z = rw (x, y, z) refl

      shared : k.directory_made ≡ true → listen c k h ≡ share_directory c k (resolved (pos n)) h
      shared d = chosen k.directory_made (is_empty c.group) (lookup_gid k.group_of c.group) d g q

  -- Where the socket's group is a number below 2^32 - 1, and `bind` makes a socket to which only its
  -- owner may connect: in every state in which the socket is while `Listen` runs, wherever it fails, more
  -- than its owner may connect only once it has the mode and the group that are configured.
  pub listen-beyond_owner :
      (h : Host) (f : File)
      → is_empty c.group ≡ false
      → lookup_gid k.group_of c.group ≡ resolved (pos n)
      → ((g : File) → k.bound ≡ some g → beyond_owner g ≡ false)
      → h.seen ≡ []
      → In f (listen c k h).0.seen
      → beyond_owner f ≡ true
      → f ≡ record { mode = c.mode; gid = n }
  listen-beyond_owner h f g q p e m b =
      All_of_In IsIntended f (listen c k h).0.seen (listen-AllIntended h g q p (rw e tt)) m b
