-- ===== src/Socket/Server.antt =====
-- The options and the life of a socket (Socket.h, Socket.cpp: `Socket`, `NagleOn`, `IsNagleOn`,
-- `Close`), and the sockets of a server (ServerSocket.cpp).
use two_phase_commit_protoco.Base.{
  arith, subst, sym, ◌≡◌, refl, inl, inr, Bool, true, false, Option, none, some, List, [], ◌∷◌,
  if◌then◌else◌, All, Bool-cases,
}
use two_phase_commit_protoco.Base.Int.{ℤ, pos, eqb_ℤ, ltb_ℤ}

-- What `socket`, `bind`, `listen` and `setsockopt` return.
pub record SocketCalls : Type 0 where
  pub socket : ℤ
  pub bind : ℤ → ℤ → ℤ
  pub listen : ℤ → ℤ → ℤ
  pub setsockopt : ℤ → ℤ → ℤ

-- The members of a `Socket`, and what the operating system holds of its descriptor: whether it
-- listens, and the value of its option TCP_NODELAY.
pub record SocketState : Type 0 where
  pub fd : ℤ
  pub is_initialized : Bool
  pub nagle : ℤ
  pub is_listening : Bool
  pub tcp_nodelay : ℤ

-- `NAGLE_ON` and `NAGLE_OFF`, the values of the option TCP_NODELAY.
abbrev pub nagle_is_on : ℤ
nagle_is_on = pos 0

abbrev pub nagle_is_off : ℤ
nagle_is_off = pos 1

-- `bool` of an `int`.
abbrev pub to_bool : ℤ → Bool
to_bool a = if eqb_ℤ a (pos 0) then false else true

-- `Socket()`: the descriptor is left as it is. A descriptor that the operating system gives out has
-- the option at 0, which leaves the algorithm on.
abbrev pub new_socket : ℤ → SocketState
new_socket stray_fd = record {
  fd = stray_fd;
  is_initialized = false;
  nagle = nagle_is_on;
  is_listening = false;
  tcp_nodelay = nagle_is_on;
}

unfoldable pub is_nagle_on : SocketState → Bool
is_nagle_on s = if eqb_ℤ s.nagle nagle_is_on then true else false

unfoldable pub close_socket : SocketState → SocketState
close_socket s = record s { is_initialized = false; is_listening = false }

-- `~Socket()`.
unfoldable pub destroy_socket : SocketState → SocketState
destroy_socket s = if s.is_initialized then close_socket s else s

module _ (calls : SocketCalls) where
  -- `NagleOn`: 1 if the option could be set, and 0 otherwise; the member is changed either way.
  unfoldable pub set_nagle : Bool → SocketState → ℤ × SocketState
  set_nagle on_off s =
      let nagle = if on_off then nagle_is_on else nagle_is_off in
      let result = calls.setsockopt s.fd nagle in
      if ltb_ℤ result (pos 0)
      then (pos 0, record s { nagle = nagle })
      else (pos 1, record s { nagle = nagle; tcp_nodelay = nagle })

  -- `ServerSocket(int fd, bool nagle_on)`.
  unfoldable pub server_socket : ℤ → Bool → SocketState
  server_socket fd nagle_on =
      (set_nagle nagle_on (record (new_socket fd) { is_initialized = true })).1

  -- The same with the default argument, `NAGLE_ON`.
  unfoldable pub server_socket_default : ℤ → SocketState
  server_socket_default fd = server_socket fd (to_bool nagle_is_on)

  -- `ServerSocket::Init`; what `listen` returns is not looked at.
  unfoldable pub init_server : ℤ → SocketState → Bool × SocketState
  init_server port s =
      let s1 = record s { fd = calls.socket } in
      if s.is_initialized
      then (true, s)
      else if ltb_ℤ calls.socket (pos 0)
      then (false, s1)
      else if ltb_ℤ (calls.bind calls.socket port) (pos 0)
      then (false, s1)
      else (
        true,
        record s1 {
          is_initialized = true;
          is_listening = if ltb_ℤ (calls.listen calls.socket (pos 8)) (pos 0) then false else true;
        },
      )

  -- `ServerSocket::Accept`, where `accepted_fd` is what `accept` returns.
  unfoldable pub accept : ℤ → SocketState → Option SocketState
  accept accepted_fd s =
      if ltb_ℤ accepted_fd (pos 0) then none else some (server_socket accepted_fd (is_nagle_on s))

  -- `while ((new_socket = socket.Accept()))`, on what `accept` returns call by call.
  unfoldable pub accept_loop : List ℤ → SocketState → List SocketState
  accept_loop [] s = []
  accept_loop (accepted_fd ∷ fds) s =
      let more = accept_loop fds s in
      elim (accept accepted_fd s) [ none ↦ [] | some accepted ↦ accepted ∷ more ]

  -- An accepted socket is open, and has the algorithm switched on at the operating system.
  abbrev pub HasNagleOn : SocketState → Type 0
  HasNagleOn c = (c.is_initialized ≡ true) × (c.tcp_nodelay ≡ nagle_is_on)

  server_socket_option :
      (fd : ℤ) (on : Bool)
      → ((d v : ℤ) → ltb_ℤ (calls.setsockopt d v) (pos 0) ≡ false)
      → ((server_socket fd on).is_initialized ≡ true)
        × ((server_socket fd on).tcp_nodelay ≡ (if on then nagle_is_on else nagle_is_off))
  unfolding server_socket set_nagle
  server_socket_option fd on h = (
    ground (arith, h fd (if on then nagle_is_on else nagle_is_off)),
    ground (arith, h fd (if on then nagle_is_on else nagle_is_off)),
  )

  accept_loop_stops :
      (fd : ℤ) (fds : List ℤ) (s : SocketState)
      → ltb_ℤ fd (pos 0) ≡ true
      → accept_loop (fd ∷ fds) s ≡ []
  unfolding accept_loop accept
  accept_loop_stops fd fds s e = rw (accept_loop, e) refl

  accept_loop_goes_on :
      (fd : ℤ) (fds : List ℤ) (s : SocketState)
      → ltb_ℤ fd (pos 0) ≡ false
      → accept_loop (fd ∷ fds) s ≡ server_socket fd (is_nagle_on s) ∷ accept_loop fds s
  unfolding accept_loop accept
  accept_loop_goes_on fd fds s e = rw (accept_loop, e) refl

  accept_loop-HasNagleOn :
      (fds : List ℤ) (s : SocketState)
      → is_nagle_on s ≡ true
      → ((d v : ℤ) → ltb_ℤ (calls.setsockopt d v) (pos 0) ≡ false)
      → All HasNagleOn (accept_loop fds s)
  unfolding accept_loop
  accept_loop-HasNagleOn [] s on h = tt
  accept_loop-HasNagleOn (fd ∷ fds) s on h = elim (Bool-cases (ltb_ℤ fd (pos 0))) [
    | inl e ↦ subst (All HasNagleOn) (sym (accept_loop_stops fd fds s e)) tt
    | inr e ↦ subst (All HasNagleOn) (sym (accept_loop_goes_on fd fds s e)) (
      subst (λ b. HasNagleOn (server_socket fd b)) (sym on) (server_socket_option fd true h),
      accept_loop-HasNagleOn fds s on h,
    )
  ]

  -- If the operating system's calls succeed, `bind` for the port and `listen` and `setsockopt` among
  -- them, a server whose socket is made by the constructor without arguments is listening, and every
  -- connection that it accepts is open and has Nagle's algorithm switched on: its option TCP_NODELAY
  -- is 0. A socket that is made with the default argument of the other constructor has it off, the
  -- option being 1: the argument `NAGLE_ON`, taken as a truth value, is false.
  pub server_sockets_lem :
      (stray_fd port : ℤ) (fds : List ℤ)
      → ltb_ℤ calls.socket (pos 0) ≡ false
      → ltb_ℤ (calls.bind calls.socket port) (pos 0) ≡ false
      → ltb_ℤ (calls.listen calls.socket (pos 8)) (pos 0) ≡ false
      → ((d v : ℤ) → ltb_ℤ (calls.setsockopt d v) (pos 0) ≡ false)
      → let (ok, s) = init_server port (new_socket stray_fd) in
        (ok ≡ true)
        × (s.is_listening ≡ true)
        × All HasNagleOn (accept_loop fds s)
        × ((fd : ℤ) → (server_socket_default fd).tcp_nodelay ≡ nagle_is_off)
  unfolding init_server server_socket_default is_nagle_on
  server_sockets_lem stray_fd port fds h h' l o =
      let opened : SocketState = record (new_socket calls.socket) {
        is_initialized = true;
        is_listening = true;
      } in
      rw (h, h', l)
        (
          refl,
          refl,
          accept_loop-HasNagleOn fds opened refl o,
          λ fd. (server_socket_option fd false o).1,
        )
