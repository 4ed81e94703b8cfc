-- ===== src/Plugin/Server/Examples.antt =====
-- A directory of sockets, in which the plugin is served and loses its socket.
use alibabacloud_erdma_contr.Prelude.{
  ◌≡◌, ◌≢◌, refl, inl, inr, ◌⊎◌, All, true, false, not, none, List, [], ◌∷◌, keep, any, Text, codes,
  text_eq, if◌then◌else◌,
}
use alibabacloud_erdma_contr.Exec.{errorf, done, fail, crash}
use alibabacloud_erdma_contr.Plugin.Server.{
  Os, present, missing, Server, new_server, drop_prefix, is_erdma_sock, call, close_stop,
  unlink_socks, cleanup, close_running, listen_on, bring_up, start, shut_down, stop,
  register_request, register, restart, watch_round, serve, Life, served, changed,
}
use alibabacloud_erdma_contr.Plugin.Server.Laws.{
  IsClosable, IsListed, watch_round_no_panic, watch_round_restores, start_then_panics,
}
use alibabacloud_erdma_contr.Plugin.Server.Sockets.{Stuck, cleanup_removes}

abbrev dir_os : Os (List Text)
dir_os = record {
  read_dir = λ w. (inr w, w);
  unlink = λ name w. (none, keep (λ t. not (text_eq name t)) w);
  listen = λ name w. (none, name ∷ w);
  stat = λ name w. if any (λ t. text_eq name t) w then present else missing;
  dial = λ w. (none, w);
  register = λ request w. (none, w);
}

abbrev sock : Text
sock = codes "17-erdma.sock"

abbrev kubelet_sock : Text
kubelet_sock = codes "kubelet.sock"

abbrev fresh_server : Server (List Text)
fresh_server = new_server sock sock true (codes "9-erdma.sock" ∷ kubelet_sock ∷ [])

abbrev served_server : Server (List Text)
served_server = record fresh_server { server = true; os = sock ∷ kubelet_sock ∷ [] }

-- The kubelet has restarted: the socket is gone.
abbrev lost_server : Server (List Text)
lost_server = record served_server { os = kubelet_sock ∷ [] }

lost_server-Life : Life dir_os fresh_server lost_server
unfolding new_server is_erdma_sock drop_prefix text_eq serve start stop register close_running
    close_stop bring_up cleanup listen_on call register_request unlink_socks
lost_server-Life = changed (served refl) (kubelet_sock ∷ [])

lost_round : watch_round dir_os lost_server ≡ done tt served_server
unfolding new_server is_erdma_sock drop_prefix text_eq watch_round restart start stop shut_down
    register close_running close_stop bring_up cleanup listen_on call register_request unlink_socks
lost_round = refl

lost_missing : dir_os.stat lost_server.socket lost_server.os ≡ missing
unfolding new_server text_eq
lost_missing = refl

lost_IsClosable : IsClosable lost_server
unfolding new_server
lost_IsClosable = refl

served_up : served_server.server ≡ true
unfolding new_server
served_up = refl

abbrev fresh_cleaned : Server (List Text)
fresh_cleaned = record fresh_server { os = kubelet_sock ∷ [] }

fresh_cleanup : cleanup dir_os fresh_server ≡ done tt fresh_cleaned
unfolding new_server is_erdma_sock drop_prefix text_eq cleanup unlink_socks
fresh_cleanup = refl

watch_round_no_panic_example :
    (serve dir_os fresh_server ≢ crash lost_server)
    × (watch_round dir_os lost_server ≢ crash lost_server)
watch_round_no_panic_example =
    watch_round_no_panic dir_os sock sock true (codes "9-erdma.sock" ∷ kubelet_sock ∷ [])
      lost_server lost_server lost_server-Life

watch_round_restores_example :
    (served_server.server ≡ true)
    × (served_server.stop_open ≡ true)
    × IsListed dir_os lost_server served_server
unfolding new_server
watch_round_restores_example =
    watch_round_restores dir_os lost_server served_server tt lost_IsClosable lost_missing lost_round

-- The directory cannot be read.
abbrev broken_os : Os (List Text)
broken_os = record dir_os { read_dir = λ w. (inl (errorf "no such directory" []), w) }

abbrev half_closed : Server (List Text)
half_closed = record served_server { stop_open = false }

broken_start : start broken_os served_server ≡ fail (errorf "no such directory" []) half_closed
unfolding new_server start close_running close_stop bring_up cleanup
broken_start = refl

start_then_panics_example :
    (start broken_os half_closed ≡ crash half_closed)
    × (stop broken_os half_closed ≡ crash (record half_closed { server = false }))
start_then_panics_example =
    start_then_panics broken_os served_server half_closed (errorf "no such directory" []) served_up
      broken_start

cleanup_removes_example :
    (keep (λ t. not (is_erdma_sock t)) fresh_cleaned.os
      ≡ keep (λ t. not (is_erdma_sock t)) fresh_server.os)
    × All (λ t. (is_erdma_sock t ≡ false) ⊎ Stuck dir_os t) fresh_cleaned.os
cleanup_removes_example =
    cleanup_removes dir_os (λ w. w) (λ n w e. refl) (λ n w x e. cc) (λ w l e. (cc, refl))
      fresh_server fresh_cleaned tt fresh_cleanup
