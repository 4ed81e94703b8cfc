-- ===== src/Plugin/Server.antt =====
-- Start, Stop, Register, cleanup, watchKubeletRestart, Serve and ListAndWatch of
-- internal/deviceplugin/deviceplugin.go: the life of the plugin's gRPC server.
--
-- An outcome `fail` is an error that Start, Stop and Register return, and of the functions that
-- return none it is the end of the process in klog.Fatalf. `crash` is a panic: the code closes the
-- channel `stop`, and to close a closed channel is one.
pub mod Laws
pub mod Sockets
pub mod Examples
use alibabacloud_erdma_contr.Prelude.{
  ◌≡◌, ◌⊎◌, inl, inr, Bool, true, false, ◌||◌, not, Option, none, some, List, [], ◌∷◌, String, Text,
  codes, ◌==◌, if◌then◌else◌,
}
use alibabacloud_erdma_contr.Exec.{Error, errorf, wrap, done, fail, crash, Exec}
use alibabacloud_erdma_contr.Exec.Act.{◌>>=◌, ◌>>◌, pure, raise, handle, reword}
use alibabacloud_erdma_contr.Types.{resource_name}
use alibabacloud_erdma_contr.Plugin.Devices.{Advertised}

pub record RegisterRequest : Type 0 where
  pub version : String
  pub endpoint : Text
  pub resource_name : String
  pub pre_start_required : Bool

-- The outcomes of os.Stat that the code tells apart; `missing` is os.IsNotExist.
pub data Stat : Type 0 where
  present : Stat
  missing : Stat
  stat_error : Error → Stat

-- The system calls and the kubelet's answers. Each leaves a world of its own, and none panics.
pub record Os (W : Type 0) : Type 0 where
  pub read_dir : W → (Error ⊎ List Text) × W
  pub unlink : Text → W → Option Error × W
  pub listen : Text → W → Option Error × W
  pub stat : Text → W → Stat
  pub dial : W → Option Error × W
  pub register : RegisterRequest → W → Option Error × W

-- The fields of the plugin that change: whether `server` is not nil, and whether `stop` is a
-- channel that is not yet closed. `socket` is its path, and `endpoint` the path's last part.
pub record Server (W : Type 0) : Type 0 where
  pub socket : Text
  pub endpoint : Text
  pub prestart : Bool
  pub server : Bool
  pub stop_open : Bool
  pub os : W

-- The plugin that NewERDMADevicePlugin makes: `stop` is made, `server` is nil.
unfoldable pub new_server : {W : Type 0} → Text → Text → Bool → W → Server W
new_server socket endpoint prestart w = record {
  socket = socket;
  endpoint = endpoint;
  prestart = prestart;
  server = false;
  stop_open = true;
  os = w;
}

unfoldable pub drop_prefix : Text → Text → Option Text
drop_prefix [] t = some t
drop_prefix (c ∷ p) [] = none
drop_prefix (c ∷ p) (d ∷ t) = if c == d then drop_prefix p t else none

-- The dot of the pattern takes any character but a line feed.
abbrev dot_sock : Text → Bool
dot_sock [] = false
dot_sock (c ∷ t) = elim (drop_prefix (codes "sock") t) [ none ↦ false | some r ↦ not (c == 10) ]

abbrev at_sock : Text → Bool
at_sock t = elim (drop_prefix (codes "-erdma") t) [ none ↦ false | some r ↦ dot_sock r ]

-- regexp.MustCompile(".*-erdma.sock").Match: somewhere in the name, since it is not anchored.
unfoldable pub is_erdma_sock : Text → Bool
unfolding drop_prefix
is_erdma_sock [] = false
is_erdma_sock (c ∷ t) = at_sock (c ∷ t) || is_erdma_sock t

module _ {W : Type 0} where
  -- A call that answers with an error or nothing.
  unfoldable pub call : (W → Option Error × W) → Exec (Server W) (Unit {0})
  call f p =
      let (e, w) = f p.os in
      elim e [ none ↦ done tt (record p { os = w }) | some e' ↦ fail e' (record p { os = w }) ]

  unfoldable pub close_stop : Exec (Server W) (Unit {0})
  close_stop p = elim p.stop_open [
    | true ↦ done tt (record p { stop_open = false })
    | false ↦ crash p
  ]

  abbrev set_server : Bool → Exec (Server W) (Unit {0})
  set_server b p = done tt (record p { server = b })

  -- m.stop = make(chan struct{}, 1)
  abbrev make_stop : Exec (Server W) (Unit {0})
  make_stop p = done tt (record p { stop_open = true })

  unfoldable pub register_request : Server W → RegisterRequest
  register_request p = record {
    version = "v1beta1";
    endpoint = p.endpoint;
    resource_name = resource_name;
    pre_start_required = p.prestart;
  }

module _ {W : Type 0} (sys : Os W) where
  -- A socket that cannot be removed is logged only.
  unfoldable pub unlink_socks : List Text → W → W
  unlink_socks [] w = w
  unlink_socks (name ∷ names) w =
      if is_erdma_sock name
      then unlink_socks names ((sys.unlink name w).1)
      else unlink_socks names w

  unfoldable pub cleanup : Exec (Server W) (Unit {0})
  unfolding unlink_socks
  cleanup p =
      let (names, w) = sys.read_dir p.os in
      elim names [
        | inl e ↦ fail e (record p { os = w })
        | inr l ↦ done tt (record p { os = unlink_socks l w })
      ]

  -- `if m.server != nil { close(m.stop); … }`
  unfoldable pub close_running : Exec (Server W) (Unit {0})
  unfolding close_stop
  close_running p = if p.server then close_stop p else done tt p

  unfoldable pub listen_on : Exec (Server W) (Unit {0})
  unfolding call
  listen_on p = call (sys.listen p.socket) p

  -- The steps of Start after the guard.
  unfoldable pub bring_up : Exec (Server W) (Unit {0})
  unfolding cleanup listen_on
  bring_up = do cleanup; listen_on; set_server true; make_stop

  unfoldable pub start : Exec (Server W) (Unit {0})
  unfolding close_running bring_up
  start = do close_running; bring_up

  -- The steps of Stop after the guard.
  unfoldable pub shut_down : Exec (Server W) (Unit {0})
  unfolding cleanup close_stop
  shut_down = do set_server false; close_stop; cleanup

  unfoldable pub stop : Exec (Server W) (Unit {0})
  unfolding shut_down
  stop p = if p.server then shut_down p else done tt p

  unfoldable pub register : Exec (Server W) (Unit {0})
  unfolding call register_request
  register = do call sys.dial; λ p. call (sys.register (register_request p)) p

  -- Stop, whose error is logged, then Start and Register, whose errors end the process.
  unfoldable pub restart : Exec (Server W) (Unit {0})
  unfolding stop start register
  restart = do
    handle stop pure (λ e. pure tt)
    reword (wrap "error restart device plugin after kubelet restart %+v" []) start
    reword (wrap "error register device plugin after kubelet restart %+v" []) register

  -- One round of watchKubeletRestart.
  unfoldable pub watch_round : Exec (Server W) (Unit {0})
  unfolding restart
  watch_round p = elim (sys.stat p.socket p.os) [
    | present ↦ done tt p
    | missing ↦ restart p
    | stat_error e ↦ fail (wrap "error stat socket: %+v" [] e) p
  ]

  -- Serve up to the rounds of watchKubeletRestart: where the kubelet does not answer, the plugin
  -- is stopped, and an error of Stop ends the process.
  unfoldable pub serve : Exec (Server W) (Unit {0})
  unfolding stop start register
  serve = do
    reword (wrap "Could not start device plugin: %v" []) start
    handle register pure
        (λ e. reword (wrap "stop current device plugin server with error: %v" []) stop)

  -- The plugin after Serve, after any rounds, and after anything that others do meanwhile.
  pub data Life : Server W → Server W → Type 0 where
    served : {p q : Server W} → serve p ≡ done tt q → Life p q
    watched : {p q r : Server W} → Life p q → watch_round q ≡ done tt r → Life p r
    changed : {p q : Server W} → Life p q → (w : W) → Life p (record q { os = w })

-- What wakes ListAndWatch: the ticker, with the outcome of Send, or the closed channel.
pub data Wake : Type 0 where
  tick : Option Error → Wake
  stopped : Wake

-- The lists that ListAndWatch sent once it has returned, or none where it still waits. An error of
-- the first Send is returned, and one of a later Send is logged.
unfoldable pub watch_devices : List Advertised → List Wake → Option (List (List Advertised))
watch_devices devs [] = none
watch_devices devs (stopped ∷ es) = some []
watch_devices devs (tick e ∷ es) = elim (watch_devices devs es) [
  | none ↦ none
  | some sent ↦ some (devs ∷ sent)
]

unfoldable pub list_and_watch :
    List Advertised → Option Error → List Wake → Option (Option Error × List (List Advertised))
unfolding watch_devices
list_and_watch devs (some e) es = some (some e, devs ∷ [])
list_and_watch devs none es = elim (watch_devices devs es) [
  | none ↦ none
  | some sent ↦ some (none, devs ∷ sent)
]

-- GetPreferredAllocation
unfoldable pub get_preferred_allocation {ℓ} : {W : Type ℓ} → Exec W (Unit {0})
get_preferred_allocation = raise (errorf "unsupported" [])
