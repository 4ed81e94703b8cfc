-- ===== src/Plugin/PreStart/Host.antt =====
-- The network namespaces of a node, and what the commands of PreStartContainer do to them.
use alibabacloud_erdma_contr.Prelude.{◌≡◌, ◌≢◌, String, List, ◌∷◌, Text}
use alibabacloud_erdma_contr.Exec.{done}
use alibabacloud_erdma_contr.Plugin.PreStart.{Commands}

-- What a network namespace holds: the sysctls written there, the last one first, and the entries
-- of smc_pnet, each the network of an interface.
pub record Space : Type 0 where
  pub written : List String
  pub table : List (Text × Text)

unfoldable pub write : String → Space → Space
write sysctl s = record s { written = sysctl ∷ s.written }

unfoldable pub enter : Text → Text → Space → Space
enter pnet device s = record s { table = (pnet, device) ∷ s.table }

-- One namespace has changed by `f`, and the others have not.
abbrev pub After : {W : Type 0} → (W → String → Space) → String → (Space → Space) → W → W → Type 0
After space n f w v = (space v n ≡ f (space w n)) × ((m : String) → m ≢ n → space v m ≡ space w m)

-- What the commands do where they succeed: the mount options are no part of a namespace, sysctl -w
-- writes, smc_pnet -s prints the entries and smc_pnet -a adds one, each in its namespace alone.
pub record Host {W : Type 0} (commands : Commands W) : Type 0 where
  pub space : W → String → Space
  pub printed : List (Text × Text) → Text
  pub remounts :
      (w v : W) (out : Text)
      → commands.ensure_sysctl_fs_rw w ≡ done out v
      → (n : String) → space v n ≡ space w n
  pub writes :
      (n sysctl : String) (w v : W) (out : Text)
      → commands.sysctl_in n sysctl w ≡ done out v
      → After space n (write sysctl) w v
  pub prints :
      (n : String) (w v : W) (out : Text)
      → commands.smc_pnet_stat_in n w ≡ done out v
      → After space n (λ s. s) w v × (out ≡ printed (space w n).table)
  pub enters :
      (n : String) (pnet device : Text) (w v : W) (out : Text)
      → commands.smc_pnet_add_in n pnet device w ≡ done out v
      → After space n (enter pnet device) w v
