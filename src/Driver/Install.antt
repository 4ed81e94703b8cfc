-- ===== src/Driver/Install.antt =====
-- Install of the three drivers in internal/drivers/default.go, compat.go and ofed.go.
pub mod Laws
use alibabacloud_erdma_contr.Prelude.{String, Bool, true, false, [], if◌then◌else◌}
use alibabacloud_erdma_contr.Exec.{wrap, Exec}
use alibabacloud_erdma_contr.Exec.Act.{◌>>=◌, ◌>>◌, pure, reword}
use alibabacloud_erdma_contr.Driver.Shell.{
  Shell, is_container_os, host_exec, node_exec, driver_exists, get_install_script,
  container_os_driver_install, load_nvidia_peermem, ensure_smcr,
}

abbrev load_default : String
load_default =
    "if [ -f /sys/module/erdma/parameters/compat_mode ] && [ \"Y\" == $(cat /sys/module/erdma/parameters/compat_mode) ]; then rmmod erdma &&  modprobe erdma compat_mode=N; else modprobe erdma compat_mode=N; fi"

abbrev load_compat : String
load_compat =
    "if [ -f /sys/module/erdma/parameters/compat_mode ] && [ \"N\" == $(cat /sys/module/erdma/parameters/compat_mode) ]; then rmmod erdma && modprobe erdma compat_mode=Y; else modprobe erdma compat_mode=Y; fi"

abbrev gpu_install_script : String
gpu_install_script =
    "\ncd /tmp && rm -f env_setup.sh && wget http://mirrors.cloud.aliyuncs.com/erdma/env_setup.sh && bash env_setup.sh --egs\n"

unfoldable pub run_gpu_script : {W : Type 0} → Bool → (String → Exec W String) → Exec W (Unit {0})
run_gpu_script true exec_method = pure tt
run_gpu_script false exec_method = do exec_method gpu_install_script; pure tt

module _ {W : Type 0} (sh : Shell W) where
  -- The installation proper, where the driver is not there.
  unfoldable pub install_missing : Bool → String → Exec W (Unit {0})
  unfolding is_container_os container_os_driver_install host_exec get_install_script
  install_missing compat version = do
    container_os ← is_container_os sh
    (if container_os
        then container_os_driver_install sh
        else (do host_exec sh (get_install_script sh compat version); pure tt))

  unfoldable pub install_default : String → Exec W (Unit {0})
  unfolding driver_exists install_missing node_exec ensure_smcr
  install_default version = do
    exist ← driver_exists sh
    (if exist then pure tt else install_missing false version)
    exec_method ← node_exec sh
    reword (wrap "install erdma driver failed: %v" []) (exec_method load_default)
    ensure_smcr exec_method

  unfoldable pub install_compat : String → Exec W (Unit {0})
  unfolding driver_exists install_missing node_exec load_nvidia_peermem ensure_smcr
  install_compat version = do
    exist ← driver_exists sh
    (if exist then pure tt else install_missing true version)
    exec_method ← node_exec sh
    reword (wrap "install erdma driver failed: %v" []) (exec_method load_compat)
    load_nvidia_peermem exec_method
    ensure_smcr exec_method

  unfoldable pub install_ofed : Exec W (Unit {0})
  unfolding driver_exists node_exec load_nvidia_peermem run_gpu_script
  install_ofed = do
    exec_method ← node_exec sh
    exist ← driver_exists sh
    run_gpu_script exist exec_method
    reword (wrap "install erdma driver failed: %v" []) (exec_method load_compat)
    reword (wrap "install erdma driver failed: %v" []) (exec_method "modprobe erdma")
    load_nvidia_peermem exec_method
