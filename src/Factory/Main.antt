-- ===== src/Factory/Main.antt =====
-- ServerMain.cpp: the arguments of a resource manager, and its connections.
pub mod History
use two_phase_commit_protoco.Base.{
  if◌then◌else◌, Bool, ℕ, zero, suc, String, Option, none, some, List, [], ◌∷◌, ◌>>=◌,
}
use two_phase_commit_protoco.Base.Int.{inc, pos, ℤ, pos_part}
use two_phase_commit_protoco.Messages.Replication.{PeerServersInfo}
use two_phase_commit_protoco.Net.{Net}
use two_phase_commit_protoco.ServerStub.{ServerStub}
use two_phase_commit_protoco.Factory.State.{Disk, Factory}
use two_phase_commit_protoco.Factory.Serve.{engineer_ifa_thread}
use two_phase_commit_protoco.Factory.Start.{make_factory, set_factory_id}

-- The loop over the arguments of the peers; `atoi` is that of the C library. A peer has no backup:
-- `garbage` is what memory holds in that field. `none` is a read past the end of `argv`.
unfoldable pub read_peers : (String → ℤ) → ℤ → ℕ → List String → Option (List PeerServersInfo)
read_peers atoi garbage zero args = some []
read_peers atoi garbage (suc n) (id ∷ ip ∷ port ∷ args) =
    read_peers atoi garbage n args >>= λ peers. some (
      record { id = atoi id; ip = ip; port = atoi port; backup_ip = ""; backup_port = garbage }
      ∷ peers)
read_peers atoi garbage (suc n) _ = none

-- `while ((new_socket = socket.Accept()))`: each connection has its own thread, with the next number
-- of `engineer_cnt`. A thread is one step here: they run one after another.
unfoldable pub serve_connections :
    List (Net × ServerStub) → ℤ → Factory → Option (List ServerStub × Factory)
serve_connections [] engineer_cnt f = some ([], f)
serve_connections ((net, stub) ∷ conns) engineer_cnt f = do
  (answered, g) ← engineer_ifa_thread net engineer_cnt stub f
  (rest, h) ← serve_connections conns (inc engineer_cnt) g
  some (answered ∷ rest, h)

-- `argv` after the name of the program, and whether the port can be listened on. The admin thread
-- has the number 0. With too few arguments there is no factory.
unfoldable pub server_main :
    (String → ℤ)
    → ℤ
    → List String
    → (ℤ → Bool)
    → List (Net × ServerStub)
    → Disk
    → Option (Option (List ServerStub × Factory))
unfolding read_peers make_factory serve_connections
server_main atoi garbage (port ∷ unique_id ∷ peer_count ∷ args) listens conns disk = do
  peers ← read_peers atoi garbage (pos_part (atoi peer_count)) args
  let factory = set_factory_id (make_factory peers disk) (atoi unique_id) in
      if listens (atoi port)
      then (do (answered, g) ← serve_connections conns (pos 1) factory; some (some (answered, g)))
      else some (some ([], factory))
server_main atoi garbage _ listens conns disk = some none
