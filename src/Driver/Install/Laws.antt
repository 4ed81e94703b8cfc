-- ===== src/Driver/Install/Laws.antt =====
-- Where Install runs its commands: in the container on a container-optimized OS, and in the host's
-- namespaces elsewhere.
use alibabacloud_erdma_contr.Prelude.{
  ◌≡◌, refl, arith, ◌⊎◌, inl, inr, String, Bool, Bool-cases, true, false, List, if◌then◌else◌,
}
use alibabacloud_erdma_contr.Exec.{done, Exec}
use alibabacloud_erdma_contr.Exec.Act.{◌>>=◌, pure, world}
use alibabacloud_erdma_contr.Exec.Stays.{
  Stays, Stays-pure, Stays-bind, Stays-then, Stays-handle, Stays-reword,
}
use alibabacloud_erdma_contr.Driver.Shell.{
  Shell, in_host, in_container, in_usr_bin_bash, is_container_os, exec_command, host_exec,
  container_exec, node_exec, driver_exists, container_os_driver_install, load_nvidia_peermem,
  ensure_smcr,
}
use alibabacloud_erdma_contr.Driver.Install.{
  install_missing, install_default, install_compat, run_gpu_script, install_ofed,
}

-- The commands that belong to the OS: a shell of the container if `os`, else one in the
-- namespaces of the host's first process.
abbrev pub IsInPlace : Bool → List String → Type 0
IsInPlace true args = (cmd : String) × ((args ≡ in_container cmd) ⊎ (args ≡ in_usr_bin_bash cmd))
IsInPlace false args = (cmd : String) × (args ≡ in_host cmd)

abbrev place : Bool → String → List String
place true = in_container
place false = in_host

module _ {W : Type 0} (sh : Shell W) (I : W → Type 0) (os : Bool)
    (knows : (w : W) → I w → (v : W) × (is_container_os sh w ≡ done os v) × I v)
    (keeps : (args : List String)
      → IsInPlace os args
      → (w : W) → I w
      → I ((sh.command args w).1)) where
  exec_command-Stays : (args : List String) → IsInPlace os args → Stays I (exec_command sh args)
  unfolding exec_command
  exec_command-Stays args p = record { stays = λ w i. ground (arith, keeps args p w i) }

  asks_os-Stays :
      {B : Type 0} (f : Bool → Exec W B) → Stays I (f os) → Stays I (is_container_os sh >>= f)
  asks_os-Stays f k = record { stays = λ w i. let (v, e, j) = knows w i in rw e (k.stays v j) }

  abbrev method : String → Exec W String
  method = if os then container_exec sh else host_exec sh

  allowed_container : os ≡ true → (cmd : String) → Stays I (exec_command sh (in_container cmd))
  allowed_container b cmd = exec_command-Stays _ (rw b (cmd, inl refl))

  allowed_bash : os ≡ true → (cmd : String) → Stays I (exec_command sh (in_usr_bin_bash cmd))
  allowed_bash b cmd = exec_command-Stays _ (rw b (cmd, inr refl))

  allowed_host : os ≡ false → (cmd : String) → Stays I (exec_command sh (in_host cmd))
  allowed_host b cmd = exec_command-Stays _ (rw b (cmd, refl))

  method-Stays : (cmd : String) → Stays I (method cmd)
  unfolding container_exec host_exec
  method-Stays cmd = elim (Bool-cases os) [
    | inl b ↦ rw b (allowed_container b cmd)
    | inr b ↦ rw b (allowed_host b cmd)
  ]

  picks_method-Stays :
      {B : Type 0} (f : (String → Exec W String) → Exec W B)
      → Stays I (f method)
      → Stays I (node_exec sh >>= f)
  unfolding node_exec
  picks_method-Stays f k = record { stays = λ w i. let (v, e, j) = knows w i in rw e (k.stays v j) }

  driver_exists-Stays : Stays I (driver_exists sh)
  unfolding driver_exists container_exec host_exec
  driver_exists-Stays = asks_os-Stays _ (
      Stays-handle I _ _ _
        (elim (Bool-cases os) [
          | inl b ↦ rw b (allowed_container b _)
          | inr b ↦ rw b (allowed_host b _)
        ])
        (λ a. Stays-pure I _) (λ e. Stays-pure I _))

  install_missing-Stays :
      (compat : Bool) (version : String) → Stays I (install_missing sh compat version)
  unfolding install_missing container_os_driver_install host_exec
  install_missing-Stays compat version = asks_os-Stays _ (elim (Bool-cases os) [
    | inl b ↦ rw b (Stays-then I _ _ (allowed_bash b _) (Stays-pure I _))
    | inr b ↦ rw b (Stays-then I _ _ (allowed_host b _) (Stays-pure I _))
  ])

  ensure_smcr-Stays : Stays I (ensure_smcr method)
  unfolding ensure_smcr
  ensure_smcr-Stays = Stays-then I _ _ (method-Stays "modprobe smc") (Stays-pure I _)

  load_nvidia_peermem-Stays : Stays I (load_nvidia_peermem method)
  unfolding load_nvidia_peermem
  load_nvidia_peermem-Stays =
      Stays-handle I _ _ _ (method-Stays _)
        (λ a. Stays-handle I _ _ _ (method-Stays _) (λ b. Stays-pure I _) (λ e. Stays-pure I _))
        (λ e. Stays-pure I _)

  skips_install-Stays :
      (exist compat : Bool) (version : String)
      → Stays I (if exist then pure tt else install_missing sh compat version)
  skips_install-Stays true compat version = Stays-pure I _
  skips_install-Stays false compat version = install_missing-Stays compat version

  run_gpu_script-Stays : (exist : Bool) → Stays I (run_gpu_script exist method)
  unfolding run_gpu_script
  run_gpu_script-Stays true = Stays-pure I _
  run_gpu_script-Stays false = Stays-then I _ _ (method-Stays _) (Stays-pure I _)

  install_default-Stays : (version : String) → Stays I (install_default sh version)
  unfolding install_default
  install_default-Stays version = Stays-bind I _ _ driver_exists-Stays λ exist.
      Stays-then I _ _ (skips_install-Stays exist false version) (
        picks_method-Stays _
          (Stays-then I _ _ (Stays-reword I _ _ (method-Stays _)) ensure_smcr-Stays))

  install_compat-Stays : (version : String) → Stays I (install_compat sh version)
  unfolding install_compat
  install_compat-Stays version = Stays-bind I _ _ driver_exists-Stays λ exist.
      Stays-then I _ _ (skips_install-Stays exist true version) (
        picks_method-Stays _ (
          Stays-then I _ _ (Stays-reword I _ _ (method-Stays _))
            (Stays-then I _ _ load_nvidia_peermem-Stays ensure_smcr-Stays)))

  install_ofed-Stays : Stays I (install_ofed sh)
  unfolding install_ofed
  install_ofed-Stays = picks_method-Stays _ (
      Stays-bind I _ _ driver_exists-Stays λ exist. Stays-then I _ _ (run_gpu_script-Stays exist) (
        Stays-then I _ _ (Stays-reword I _ _ (method-Stays _))
          (Stays-then I _ _ (Stays-reword I _ _ (method-Stays _)) load_nvidia_peermem-Stays)))

  -- Where `uname` tells the OS and keeps a property of the world, and every command in the place
  -- that belongs to the OS keeps it, a shell of the container on a container-optimized OS and
  -- one in the host's namespaces elsewhere, each driver's Install keeps it too, on success and
  -- on every error.
  pub install_in_place :
      (version : String) (w : W)
      → I w
      → I (world (install_default sh version w))
        × I (world (install_compat sh version w))
        × I (world (install_ofed sh w))
  install_in_place version w i = (
    (install_default-Stays version).stays w i,
    (install_compat-Stays version).stays w i,
    install_ofed-Stays.stays w i,
  )
