-- ===== src/Plugin/Server/Laws.antt =====
-- The channel `stop` of the device plugin over its life: it is never closed twice, and a lost
-- socket is served again.
use alibabacloud_erdma_contr.Prelude.{
  ◌≡◌, ◌≢◌, Text, refl, ap, ◌∙◌, arith, Bool, true, false, not, ◌&&◌, Option, none,
}
use alibabacloud_erdma_contr.Exec.{Error, Run, done, fail, crash}
use alibabacloud_erdma_contr.Exec.Act.{pure, reword-done, branch, through, arrive, done_world}
use alibabacloud_erdma_contr.Plugin.Server.{
  Os, Server, new_server, missing, call, close_stop, cleanup, close_running, listen_on, bring_up,
  start, shut_down, stop, register_request, register, restart, watch_round, serve, Life, served,
  watched, changed,
}

-- While a server runs, its channel can be closed.
abbrev pub IsClosable : {W : Type 0} → Server W → Type 0
IsClosable p = (p.server && not p.stop_open) ≡ false

-- No panic, and where it succeeds there is a server with a channel that can be closed.
abbrev IsUp : {W : Type 0} → Run (Server W) (Unit {0}) → Type 0
IsUp (done u q) = (q.server ≡ true) × (q.stop_open ≡ true)
IsUp (fail e q) = Unit {0}
IsUp (crash q) = ⊥

call-done :
    {W : Type 0} (f : W → Option Error × W) (p q : Server W) (u : Unit {0})
    → call f p ≡ done u q
    → (f p.os ≡ (none, q.os)) × (q ≡ record p { os = q.os })
unfolding call
call-done f p q u h = ground arith

module _ {W : Type 0} (sys : Os W) where
  start-IsUp : (p : Server W) → IsClosable p → IsUp (start sys p)
  unfolding start close_running close_stop bring_up cleanup listen_on call
  start-IsUp p h = ground arith

  -- An error of Stop leaves no server either.
  abbrev IsHalted : Run (Server W) (Unit {0}) → Type 0
  IsHalted (done u q) = q.server ≡ false
  IsHalted (fail e q) = q.server ≡ false
  IsHalted (crash q) = ⊥

  stop-IsHalted : (p : Server W) → IsClosable p → IsHalted (stop sys p)
  unfolding stop shut_down close_stop cleanup
  stop-IsHalted p h = ground arith

  -- Register changes nothing of the plugin's own.
  abbrev IsKept : Server W → Run (Server W) (Unit {0}) → Type 0
  IsKept p (done u q) = (q.server ≡ p.server) × (q.stop_open ≡ p.stop_open)
  IsKept p (fail e q) = (q.server ≡ p.server) × (q.stop_open ≡ p.stop_open)
  IsKept p (crash q) = ⊥

  register-IsKept : (p : Server W) → IsKept p (register sys p)
  unfolding register call register_request
  register-IsKept p = ground arith

  restart-IsUp : (p : Server W) → IsClosable p → IsUp (restart sys p)
  unfolding restart
  restart-IsUp p h = grind (arith, stop-IsHalted p h, start-IsUp, register-IsKept)

  -- What a panic of the code would break: it succeeds with a channel that can be closed, or it
  -- ends with an error.
  abbrev pub IsSound : Run (Server W) (Unit {0}) → Type 0
  IsSound (done u q) = IsClosable q
  IsSound (fail e q) = Unit {0}
  IsSound (crash q) = ⊥

  watch_round-IsSound : (p : Server W) → IsClosable p → IsSound (watch_round sys p)
  unfolding watch_round
  watch_round-IsSound p h = grind (arith, restart-IsUp p h)

  serve-IsSound : (p : Server W) → IsClosable p → IsSound (serve sys p)
  unfolding serve
  serve-IsSound p h = grind (arith, start-IsUp p h, register-IsKept, stop-IsHalted)

  IsSound-done :
      (r : Run (Server W) (Unit {0})) {u : Unit {0}} {q : Server W}
      → r ≡ done u q
      → IsSound r
      → IsClosable q
  IsSound-done r e h = rw e at h

  IsSound-no_crash : {m : Run (Server W) (Unit {0})} {r : Server W} → IsSound m → m ≢ crash r
  IsSound-no_crash s e = rw e at s

  -- From a plugin whose channel can be closed while it has a server, `serve`, any rounds of
  -- `watch_round` and any changes of the world lead to such a plugin only.
  Life-IsClosable : (p q : Server W) → IsClosable p → Life sys p q → IsClosable q
  Life-IsClosable p q h (served e) = IsSound-done (serve sys p) e (serve-IsSound p h)
  Life-IsClosable p r h (watched {q} l e) =
      IsSound-done (watch_round sys q) e (watch_round-IsSound q (Life-IsClosable p q h l))
  Life-IsClosable p r h (changed {q} l w) = Life-IsClosable p q h l

  -- In the life of a plugin that `new_server` made, neither `serve` nor a round of `watch_round`
  -- ever panics: the channel `stop` is not closed twice.
  pub watch_round_no_panic :
      (socket endpoint : Text) (prestart : Bool) (w : W) (q r : Server W)
      → Life sys (new_server socket endpoint prestart w) q
      → (serve sys (new_server socket endpoint prestart w) ≢ crash r)
        × (watch_round sys q ≢ crash r)
  unfolding new_server
  watch_round_no_panic socket endpoint prestart w q r l =
      let h : IsClosable (new_server socket endpoint prestart w) = refl in
      (
        IsSound-no_crash (serve-IsSound (new_server socket endpoint prestart w) h),
        IsSound-no_crash (watch_round-IsSound q (Life-IsClosable _ q h l)),
      )

  -- The kubelet has accepted the registration, in the last call that was made.
  abbrev RegisteredIn : W → Server W → Type 0
  RegisteredIn w q =
      (v : W) × (sys.dial w ≡ (none, v)) × (sys.register (register_request q) v ≡ (none, q.os))

  register-RegisteredIn :
      (p q : Server W) (u : Unit {0}) → register sys p ≡ done u q → RegisteredIn p.os q
  unfolding register call register_request
  register-RegisteredIn p q u e =
      elim (through (call sys.dial p) (λ u' p'. call (sys.register (register_request p')) p') e) [
        | arrive a v e1 e2 ↦ (
          v.os,
          (call-done sys.dial p v a e1).0,
          let (h, k) = call-done (sys.register (register_request v)) v q a e2 in
              rw (ap register_request k) h,
        )
      ]

  -- The last calls were to listen on the socket of `p`, to dial the kubelet and to register, and
  -- each succeeded.
  abbrev pub IsListed : Server W → Server W → Type 0
  IsListed p q = (w : W) × (v : W) × (sys.listen p.socket w ≡ (none, v)) × RegisteredIn v q

  stop-socket :
      (p : Server W) (q : Server W)
      → branch (stop sys p) pure (λ x. pure tt) ≡ done tt q
      → q.socket ≡ p.socket
  unfolding stop shut_down close_stop cleanup
  stop-socket p q h = ground arith

  close_running-socket :
      (p q : Server W) (u : Unit {0}) → close_running sys p ≡ done u q → q.socket ≡ p.socket
  unfolding close_running close_stop
  close_running-socket p q u h = ground arith

  cleanup-socket : (p q : Server W) (u : Unit {0}) → cleanup sys p ≡ done u q → q.socket ≡ p.socket
  unfolding cleanup
  cleanup-socket p q u h = ground arith

  start-listens :
      (p q : Server W) (u : Unit {0})
      → start sys p ≡ done u q
      → (w : W) × (sys.listen p.socket w ≡ (none, q.os))
  unfolding start bring_up listen_on
  start-listens p q u h = elim (through (close_running sys p) _ h) [
    | arrive t v e f ↦ elim (through (cleanup sys v) _ f) [
      | arrive t2 x e2 f2 ↦ elim (through (listen_on sys x) _ f2) [
        | arrive t3 y e3 f3 ↦
            let same : x.socket ≡ p.socket =
              cleanup-socket v x t2 e2 ∙ close_running-socket p v t e in
            let listened : sys.listen x.socket x.os ≡ (none, y.os) =
              (call-done (sys.listen x.socket) x y t3 e3).0 in
            (x.os, rw same at (rw (ap (λ (s : Server W). s.os) (done_world f3)) at listened))
      ]
    ]
  ]

  IsUp-done :
      (r : Run (Server W) (Unit {0})) {u : Unit {0}} {q : Server W}
      → r ≡ done u q
      → IsUp r
      → (q.server ≡ true) × (q.stop_open ≡ true)
  IsUp-done r e h = rw e at h

  IsKept-done :
      (p : Server W) (r : Run (Server W) (Unit {0})) {u : Unit {0}} {q : Server W}
      → r ≡ done u q
      → IsKept p r
      → (q.server ≡ p.server) × (q.stop_open ≡ p.stop_open)
  IsKept-done p r e h = rw e at h

  restart-restores :
      (p q : Server W) (u : Unit {0})
      → IsClosable p
      → restart sys p ≡ done u q
      → (q.server ≡ true) × (q.stop_open ≡ true) × IsListed p q
  unfolding restart
  restart-restores p q u h e = elim (through (branch (stop sys p) pure (λ x. pure tt)) _ e) [
    | arrive a v e1 f1 ↦ elim (through (branch (start sys v) pure _) _ f1) [
      | arrive b v' e2 f2 ↦
          let v0 : v.server ≡ false = grind (arith, stop-IsHalted p h) in
          let up : (v'.server ≡ true) × (v'.stop_open ≡ true) =
            IsUp-done (start sys v) (reword-done _ (start sys v) e2)
              (start-IsUp v (ground arith)) in
          let r : register sys v' ≡ done u q = reword-done _ (register sys v') f2 in
          let (k, k') = IsKept-done v' (register sys v') r (register-IsKept v') in
          let (w, l) = start-listens v v' b (reword-done _ (start sys v) e2) in
          let l' : sys.listen p.socket w ≡ (none, v'.os) = rw (stop-socket p v e1) at l in
          (k ∙ up.0, k' ∙ up.1, (w, v'.os, l', register-RegisteredIn v' q u r))
    ]
  ]

  -- A round that finds the socket missing and does not end the process leaves the plugin with a
  -- server and an open channel, and its last three calls, which succeeded, were to listen on the
  -- socket again, to dial the kubelet and to register with it.
  pub watch_round_restores :
      (p q : Server W) (u : Unit {0})
      → IsClosable p
      → sys.stat p.socket p.os ≡ missing
      → watch_round sys p ≡ done u q
      → (q.server ≡ true) × (q.stop_open ≡ true) × IsListed p q
  unfolding watch_round
  watch_round_restores p q u h m e = restart-restores p q u h (ground arith)

  -- Start of a plugin whose server runs, if it cannot read the directory, returns the error and
  -- leaves the old server under a closed channel: the next Start and the next Stop panic.
  pub start_then_panics :
      (p q : Server W) (e : Error)
      → p.server ≡ true
      → start sys p ≡ fail e q
      → (start sys q ≡ crash q) × (stop sys q ≡ crash (record q { server = false }))
  unfolding start close_running close_stop bring_up cleanup listen_on call stop shut_down
  start_then_panics p q e h s = ground arith
