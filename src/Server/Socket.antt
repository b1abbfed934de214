-- ===== src/Server/Socket.antt =====
-- The life of the secret socket: `New`, `Listen`, `lookupGID` and `Close`. The file system is the mode and
-- the group of the socket's directory and of the socket, and each call of it succeeds or changes nothing.
pub mod Audience
pub mod Listener
use x.Base.{
  ℕ, ◌-◌, ◌%◌, ◌^◌, Bool, true, false, not, List, [], ◌∷◌, Option, none, some, if◌then◌else◌, Bytes,
  codes, is_empty, ◌==◌,
}
use x.Text.{ℤ, pos, negsuc, atoi}

-- The part of `Config` that is about the socket.
pub record SocketConfig : Type 0 where
  pub path : Bytes
  pub mode : ℕ
  pub group : Bytes

pub record File : Type 0 where
  pub mode : ℕ
  pub gid : ℕ

pub data ListenError : Type 0 where
  directory_failed : ListenError
  group_unresolved group_not_numeric : ListenError
  directory_group_failed directory_mode_failed : ListenError
  stale_socket_kept : ListenError
  bind_failed socket_group_failed socket_mode_failed : ListenError

-- What `os.Remove` comes to.
pub data Removal : Type 0 where
  removed missing failed : Removal

-- The directory, the socket, whether a listener is open, whether the server has it, and every state
-- in which the socket was, the latest first.
pub record Host : Type 0 where
  pub directory : File
  pub socket : Option File
  pub listening : Bool
  pub has_listener : Bool
  pub closed : Bool
  pub seen : List File

-- What the operating system answers. `bound` is the socket as `bind` makes it, by the umask, and the group
-- is that of the process or of the directory; `group_of` is `user.LookupGroup`.
pub record Calls : Type 0 where
  pub directory_made : Bool
  pub group_of : Bytes → Option Bytes
  pub directory_chown : Bool
  pub directory_chmod : Bool
  pub stale : Removal
  pub bound : Option File
  pub socket_chown : Bool
  pub socket_chmod : Bool

-- `protocol.DefaultSocketPath`.
abbrev pub default_socket_path : Bytes
default_socket_path = codes "/run/kernelseal/kernelseal.sock"

-- 0660 and 0750.
abbrev pub default_socket_mode : ℕ
default_socket_mode = 432

abbrev pub directory_mode : ℕ
directory_mode = 488

-- The defaults of `New`.
unfoldable pub with_defaults : SocketConfig → SocketConfig
with_defaults c = record {
  path = if is_empty c.path then default_socket_path else c.path;
  mode = if c.mode == 0 then default_socket_mode else c.mode;
  group = c.group;
}

-- What `lookupGID` gives.
pub data Resolved : Type 0 where
  resolved : ℤ → Resolved
  unresolved : ListenError → Resolved

abbrev numeric : Option ℤ → Resolved
numeric none = unresolved group_not_numeric
numeric (some g) = resolved g

abbrev named : Option Bytes → Resolved
named none = unresolved group_unresolved
named (some s) = numeric (atoi s)

-- `lookupGID`.
unfoldable pub lookup_gid : (Bytes → Option Bytes) → Bytes → Resolved
unfolding atoi
lookup_gid group_of group = elim (atoi group) [
  | some g ↦ resolved g
  | none ↦ named (group_of group)
]

-- The group after `chown(path, -1, gid)`: the kernel reads 32 bits, and leaves the group for -1.
abbrev pub chowned : ℤ → ℕ → ℕ
chowned (pos n) gid = if n % 2 ^ 32 == 2 ^ 32 - 1 then gid else n % 2 ^ 32
chowned (negsuc n) gid = if n % 2 ^ 32 == 0 then gid else 2 ^ 32 - 1 - n % 2 ^ 32

abbrev pub place : File → Host → Host
place f h = record h { socket = some f; seen = f ∷ h.seen }

-- `ln.Close()`, which unlinks the socket.
abbrev pub close_listener : Host → Host
close_listener h = record h { socket = none; listening = false }

module _ (c : SocketConfig) (k : Calls) where
  -- The mode, last.
  unfoldable pub set_mode : File → Host → Host × Option ListenError
  set_mode f h =
      if not k.socket_chmod
      then (close_listener h, some socket_mode_failed)
      else (record (place (record f { mode = c.mode }) h) { has_listener = true }, none)

  abbrev set_group : ℤ → File → Host → Host × Option ListenError
  set_group (negsuc n) f h = set_mode f h
  set_group (pos n) f h =
      if not k.socket_chown
      then (close_listener h, some socket_group_failed)
      else let f' = record f { gid = chowned (pos n) f.gid } in set_mode f' (place f' h)

  abbrev bind : Option File → ℤ → Host → Host × Option ListenError
  bind none gid h = (h, some bind_failed)
  bind (some f) gid h = set_group gid f (record (place f h) { listening = true })

  -- From the removal of a stale socket on.
  abbrev open_socket : Removal → ℤ → Host → Host × Option ListenError
  open_socket removed gid h = bind k.bound gid (record h { socket = none })
  open_socket missing gid h = bind k.bound gid h
  open_socket failed gid h = (h, some stale_socket_kept)

  abbrev share_directory : Resolved → Host → Host × Option ListenError
  share_directory (unresolved err) h = (h, some err)
  share_directory (resolved gid) h =
      if not k.directory_chown
      then (h, some directory_group_failed)
      else let h' = record h {
        directory = record h.directory { gid = chowned gid h.directory.gid };
      } in
        if not k.directory_chmod
        then (h', some directory_mode_failed)
        else open_socket k.stale gid
            (record h' { directory = record h'.directory { mode = directory_mode } })

  -- `Server.Listen`; -1 stands for no group.
  unfoldable pub listen : Host → Host × Option ListenError
  unfolding set_mode lookup_gid
  listen h =
      if not k.directory_made
      then (h, some directory_failed)
      else if is_empty c.group
      then open_socket k.stale (negsuc 0) h
      else share_directory (lookup_gid k.group_of c.group) h

-- `Server.Close`; what becomes of the connections under way is their own.
unfoldable pub close : Removal → Host → Host
close last h =
    if h.closed
    then h
    else let h' = if h.has_listener then close_listener h else h in
      elim last [
        | removed ↦ record h' { closed = true; socket = none }
        | missing ↦ record h' { closed = true }
        | failed ↦ record h' { closed = true }
      ]
