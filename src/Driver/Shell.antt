-- ===== src/Driver/Shell.antt =====
-- Shell commands of internal/drivers/utils.go and internal/drivers/utils_linux.go: where they run,
-- and the drivers' own commands.
use alibabacloud_erdma_contr.Prelude.{
  String, str_eq, Bool, true, false, Option, none, some, List, [], ◌∷◌, if◌then◌else◌,
}
use alibabacloud_erdma_contr.Exec.{Error, wrap, done, fail, Exec}
use alibabacloud_erdma_contr.Exec.Act.{◌>>=◌, ◌>>◌, pure, handle}

-- exec.Command(…).CombinedOutput: the error, if any, and the output, of a command and its
-- arguments; strings.Contains; and fmt.Sprintf.
pub record Shell (W : Type 0) : Type 0 where
  pub command : List String → W → (Option Error × String) × W
  pub contains : String → String → Bool
  pub sprintf : String → List String → String

abbrev pub uname : List String
uname = "uname" ∷ "-r" ∷ []

abbrev pub in_host : String → List String
in_host cmd = "nsenter" ∷ "-t" ∷ "1" ∷ "-m" ∷ "-C" ∷ "--" ∷ "bash" ∷ "-c" ∷ cmd ∷ []

abbrev pub in_container : String → List String
in_container cmd = "bash" ∷ "-c" ∷ cmd ∷ []

abbrev pub in_usr_bin_bash : String → List String
in_usr_bin_bash cmd = "/usr/bin/bash" ∷ "-c" ∷ cmd ∷ []

-- The script of getInstallScript, with its two verbs.
abbrev install_format : String
install_format =
    "ERDMA_PPID=$(awk '/PPid:/{print $2}' /proc/self/status); if [ -d /sys/fs/cgroup/cpu/ ]; then echo $ERDMA_PPID > /sys/fs/cgroup/cpu/tasks 2>/dev/null || true; echo $ERDMA_PPID > /sys/fs/cgroup/memory/tasks 2>/dev/null || true; else mkdir -p /sys/fs/cgroup/erdma-installer 2>/dev/null || true; echo $ERDMA_PPID > /sys/fs/cgroup/erdma-installer/cgroup.procs 2>/dev/null || true; fi; cd /tmp && rm -f erdma_installer-1.4.6.tar.gz &&\nwget 'http://mirrors.cloud.aliyuncs.com/erdma/erdma_installer-%s.tar.gz' -O erdma_installer.tar.gz && tar -xzvf erdma_installer.tar.gz && cd erdma_installer &&\nif command -v yum >/dev/null 2>&1; then yum install -y kernel-devel-$(uname -r) gcc-c++ dkms cmake; elif command -v dnf >/dev/null 2>&1; then dnf install -y kernel-devel-$(uname -r) gcc-c++ dkms cmake; elif command -v apt >/dev/null 2>&1; then apt update && apt install -y debhelper autotools-dev dkms libnl-3-dev libnl-route-3-dev cmake; else echo 'no supported package manager (yum/dnf/apt) found' >&2; exit 1; fi &&\nERDMA_CM_NO_BOUND_IF=1 %s ./install.sh --batch"

module _ {W : Type 0} (sh : Shell W) where
  unfoldable pub is_container_os : Exec W Bool
  is_container_os w =
      let (out, w') = sh.command uname w in
      elim out.0 [ some e ↦ done false w' | none ↦ done (sh.contains out.1 "lifsea") w' ]

  -- The output of a command, or its error with the output.
  unfoldable pub exec_command : List String → Exec W String
  exec_command args w =
      let (out, w') = sh.command args w in
      elim out.0 [
        | some e ↦ fail (wrap "exec error: %v, output: %s" (out.1 ∷ []) e) w'
        | none ↦ done out.1 w'
      ]

  unfoldable pub host_exec : String → Exec W String
  unfolding exec_command
  host_exec cmd = exec_command (in_host cmd)

  unfoldable pub container_exec : String → Exec W String
  unfolding exec_command
  container_exec cmd = exec_command (in_container cmd)

  -- The way to run a command, chosen once.
  unfoldable pub node_exec : Exec W (String → Exec W String)
  unfolding is_container_os host_exec container_exec
  node_exec = do
    container_os ← is_container_os
    pure (if container_os then container_exec else host_exec)

  unfoldable pub driver_exists : Exec W Bool
  unfolding is_container_os host_exec container_exec
  driver_exists = do
    container_os ← is_container_os
    handle
        (if container_os
          then container_exec "modinfo erdma"
          else host_exec "stat /bin/eadm && modinfo erdma")
        (λ out. pure true) (λ e. pure false)

  unfoldable pub get_install_script : Bool → String → String
  get_install_script compat installer_version =
      let version = if str_eq installer_version "" then "latest" else installer_version in
      sh.sprintf install_format (version ∷ (if compat then "ERDMA_FORCE_MAD_ENABLE=1" else "") ∷ [])

  unfoldable pub container_os_driver_install : Exec W (Unit {0})
  unfolding exec_command
  container_os_driver_install = do
    exec_command (in_usr_bin_bash "yum install -y kernel-modules-$(uname -r)")
    pure tt

-- nvidia_peermem is loaded if it is there; no outcome of it is an error.
unfoldable pub load_nvidia_peermem : {W : Type 0} → (String → Exec W String) → Exec W (Unit {0})
load_nvidia_peermem exec =
    handle (exec "modinfo nvidia_peermem > /dev/null 2>&1")
      (λ out. handle (exec "modprobe nvidia_peermem") (λ out. pure tt) (λ e. pure tt))
      (λ e. pure tt)

unfoldable pub ensure_smcr : {W : Type 0} → (String → Exec W String) → Exec W (Unit {0})
ensure_smcr exec = do exec "modprobe smc"; pure tt
