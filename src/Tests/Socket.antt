-- ===== src/Tests/Socket.antt =====
-- Sockets that are shared with a group: by number, and one whose mode cannot be set.
use x.Base.{◌≡◌, refl, true, false, [], none, some, arith, codes, In, inl}
use x.Text.{pos, atoi, parse_uint, parse_digits}
use x.Server.Socket.{
  SocketConfig, File, Host, Calls, missing, resolved, lookup_gid, listen, set_mode,
  default_socket_mode, default_socket_path,
}
use x.Server.Socket.Audience.{beyond_owner, listen-beyond_owner}
use x.Server.Socket.Listener.{Leaves, listen-Leaves}

abbrev config : SocketConfig
config = record { path = default_socket_path; mode = default_socket_mode; group = codes "1000" }

-- With the umask 0022 a socket is made with the mode 0755.
abbrev bound : File
bound = record { mode = 493; gid = 0 }

abbrev calls : Calls
calls = record {
  directory_made = true;
  group_of = λ name. none;
  directory_chown = true;
  directory_chmod = true;
  stale = missing;
  bound = some bound;
  socket_chown = true;
  socket_chmod = true;
}

abbrev host : Host
host = record {
  directory = record { mode = 493; gid = 0 };
  socket = none;
  listening = false;
  has_listener = false;
  closed = false;
  seen = [];
}

number : lookup_gid calls.group_of config.group ≡ resolved (pos 1000)
unfolding lookup_gid atoi parse_uint parse_digits
number = refl

abbrev final : File
final = record { mode = 432; gid = 1000 }

was_there : In final (listen config calls host).0.seen
unfolding listen set_mode lookup_gid atoi parse_uint parse_digits
was_there = inl refl

only_owner : (g : File) → some bound ≡ some g → beyond_owner g ≡ false
only_owner g q = ground arith

listen-beyond_owner_example : final ≡ record { mode = 432; gid = 1000 }
listen-beyond_owner_example =
    listen-beyond_owner config calls 1000 (omega arith) host final refl number only_owner refl
      was_there refl

abbrev unset : Calls
unset = record calls { socket_chmod = false }

listen-Leaves_example : Leaves config (listen config unset host)
listen-Leaves_example = listen-Leaves config unset host refl refl
