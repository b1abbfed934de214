-- ===== src/Server/Socket/Listener.antt =====
-- What `Listen` leaves open, whichever way it ends.
use x.Base.{ℕ, ◌≡◌, refl, Bool, true, false, not, Option, none, some, if◌then◌else◌, is_empty}
use x.Text.{ℤ, pos, negsuc}
use x.Server.Socket.{
  SocketConfig, File, ListenError, socket_mode_failed, socket_group_failed, directory_group_failed,
  directory_mode_failed, directory_failed, directory_mode, Removal, removed, missing, failed, Host,
  Calls, Resolved, resolved, unresolved, lookup_gid, chowned, place, close_listener, set_mode,
  set_group, bind, open_socket, share_directory, listen,
}

-- A listener that the server has, at a socket with the mode of the configuration; or an error, and none.
abbrev pub Leaves : SocketConfig → Host × Option ListenError → Type 0
Leaves c (h, some err) = (h.listening ≡ false) × (h.has_listener ≡ false)
Leaves c (h, none) =
    (h.listening ≡ true)
    × (h.has_listener ≡ true)
    × ((gid : ℕ) × (h.socket ≡ some (record { mode = c.mode; gid = gid })))

module _ (c : SocketConfig) (k : Calls) where
  set_mode-Leaves :
      (f : File) (h : Host)
      → h.listening ≡ true
      → h.has_listener ≡ false
      → Leaves c (set_mode c k f h)
  unfolding set_mode
  set_mode-Leaves f h l s = chosen k.socket_chmod
    where
      chosen :
          (b : Bool)
          → Leaves c (
              if not b
              then (close_listener h, some socket_mode_failed)
              else (record (place (record f { mode = c.mode }) h) { has_listener = true }, none))
      chosen false = (refl, s)
      chosen true = (l, refl, (f.gid, refl))

  set_group-Leaves :
      (gid : ℤ) (f : File) (h : Host)
      → h.listening ≡ true
      → h.has_listener ≡ false
      → Leaves c (set_group c k gid f h)
  set_group-Leaves (negsuc n) f h l s = set_mode-Leaves f h l s
  set_group-Leaves (pos n) f h l s = chosen k.socket_chown
    where
      f' : File
      f' = record f { gid = chowned (pos n) f.gid }

      chosen :
          (b : Bool)
          → Leaves c (
              if not b
              then (close_listener h, some socket_group_failed)
              else set_mode c k f' (place f' h))
      chosen false = (refl, s)
      chosen true = set_mode-Leaves f' (place f' h) l s

  bind-Leaves :
      (o : Option File) (gid : ℤ) (h : Host)
      → h.listening ≡ false
      → h.has_listener ≡ false
      → Leaves c (bind c k o gid h)
  bind-Leaves none gid h l s = (l, s)
  bind-Leaves (some f) gid h l s =
      set_group-Leaves gid f (record (place f h) { listening = true }) refl s

  open_socket-Leaves :
      (r : Removal) (gid : ℤ) (h : Host)
      → h.listening ≡ false
      → h.has_listener ≡ false
      → Leaves c (open_socket c k r gid h)
  open_socket-Leaves removed gid h l s = bind-Leaves k.bound gid (record h { socket = none }) l s
  open_socket-Leaves missing gid h l s = bind-Leaves k.bound gid h l s
  open_socket-Leaves failed gid h l s = (l, s)

  share_directory-Leaves :
      (r : Resolved) (h : Host)
      → h.listening ≡ false
      → h.has_listener ≡ false
      → Leaves c (share_directory c k r h)
  share_directory-Leaves (unresolved err) h l s = (l, s)
  share_directory-Leaves (resolved gid) h l s = chosen k.directory_chown k.directory_chmod
    where
      h' : Host
      h' = record h { directory = record h.directory { gid = chowned gid h.directory.gid } }

      chosen :
          (b d : Bool)
          → Leaves c (
              if not b
              then (h, some directory_group_failed)
              else if not d
              then (h', some directory_mode_failed)
              else open_socket c k k.stale gid
                  (record h' { directory = record h'.directory { mode = directory_mode } }))
      chosen false d = (l, s)
      chosen true false = (l, s)
      chosen true true = open_socket-Leaves k.stale gid _ l s

  -- From a server with no listener, `Listen` with no error leaves one that it has, at a socket with the mode
  -- that is configured; with an error it leaves none open, whichever call failed.
  pub listen-Leaves :
      (h : Host) → h.listening ≡ false → h.has_listener ≡ false → Leaves c (listen c k h)
  unfolding listen
  listen-Leaves h l s = chosen k.directory_made (is_empty c.group)
    where
      chosen :
          (b d : Bool)
          → Leaves c (
              if not b
              then (h, some directory_failed)
              else if d
              then open_socket c k k.stale (negsuc 0) h
              else share_directory c k (lookup_gid k.group_of c.group) h)
      chosen false d = (l, s)
      chosen true true = open_socket-Leaves k.stale (negsuc 0) h l s
      chosen true false = share_directory-Leaves (lookup_gid k.group_of c.group) h l s
