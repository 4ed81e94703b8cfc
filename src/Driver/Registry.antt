-- ===== src/Driver/Registry.antt =====
-- GetDriver of internal/drivers/driver.go, with the drivers that the files for Linux register, and
-- the drivers' methods by their kind.
use alibabacloud_erdma_contr.Prelude.{
  ◌≡◌, ◌≢◌, refl, ◌∙◌, ◌⊎◌, inl, inr, arith, eq_iff, String, str_eq, Bool-cases, Option, none, some,
  List, [], ◌∷◌, if◌then◌else◌,
}
use alibabacloud_erdma_contr.Exec.{Run, done, fail, crash, Exec}
use alibabacloud_erdma_contr.Exec.Act.{handle, branch}
use alibabacloud_erdma_contr.Types.{Eri, ERdmaDeviceInfo}
use alibabacloud_erdma_contr.Driver.Shell.{Shell, host_exec, exec_command}
use alibabacloud_erdma_contr.Driver.Install.{install_default, install_compat, install_ofed}
use alibabacloud_erdma_contr.Driver.Probe.{Sys, probe_default, probe_compat, probe_ofed}

-- A registered driver; two of them keep the version of the installer.
pub data Driver : Type 0 where
  default_driver : String → Driver
  compat_driver : String → Driver
  ofed_driver : Driver

unfoldable pub driver_name : Driver → String
driver_name (default_driver v) = "default"
driver_name (compat_driver v) = "compat"
driver_name ofed_driver = "ofed"

unfoldable pub set_erdma_installer_version : String → Driver → Driver
set_erdma_installer_version version (default_driver v) = default_driver version
set_erdma_installer_version version (compat_driver v) = compat_driver version
set_erdma_installer_version version ofed_driver = ofed_driver

-- Register, called once by each file's init.
unfoldable pub register_driver : List (String × Driver) → String → Driver → List (String × Driver)
register_driver registry name d = (name, d) ∷ registry

unfoldable pub registered : List (String × Driver)
unfolding register_driver
registered =
    register_driver
      (register_driver (register_driver [] "compat" (compat_driver "")) "default"
        (default_driver ""))
      "ofed" ofed_driver

unfoldable pub driver_of : List (String × Driver) → String → Option Driver
driver_of [] name = none
driver_of (d ∷ ds) name = if str_eq d.0 name then some d.1 else driver_of ds name

-- The last loop: any registered driver.
unfoldable pub any_driver : List (String × Driver) → Option Driver
any_driver [] = none
any_driver (d ∷ ds) = some d.1

abbrev or_any : List (String × Driver) → Option Driver → Option Driver
or_any registry none = any_driver registry
or_any registry (some d) = some d

module _ {W : Type 0} where
  unfoldable pub install : Shell W → Driver → Exec W (Unit {0})
  install sh (default_driver v) = install_default sh v
  install sh (compat_driver v) = install_compat sh v
  install sh ofed_driver = install_ofed sh

  unfoldable pub probe : Sys W → Driver → Eri → Exec W ERdmaDeviceInfo
  probe sys (default_driver v) = probe_default sys
  probe sys (compat_driver v) = probe_compat sys
  probe sys ofed_driver = probe_ofed sys

  -- The driver with the version set, and a panic where there is none.
  unfoldable pub use_driver : String → Option Driver → Exec W Driver
  unfolding set_erdma_installer_version
  use_driver version none w = crash w
  use_driver version (some d) w = done (set_erdma_installer_version version d) w

  unfoldable pub get_driver : Shell W → List (String × Driver) → String → String → Exec W Driver
  unfolding driver_of use_driver any_driver host_exec
  get_driver sh registry name version =
      if str_eq name ""
      then handle (host_exec sh "which nvidia-smi")
          (λ out. use_driver version (or_any registry (driver_of registry "ofed")))
          (λ e. use_driver version (or_any registry (driver_of registry "default")))
      else use_driver version (driver_of registry name)

driver_of-registered :
    (name : String) (d : Driver) → driver_of registered name ≡ some d → driver_name d ≡ name
unfolding driver_of registered register_driver driver_name
driver_of-registered name d h = grind (arith, eq_iff)

set_version_lem :
    (version : String) (d : Driver)
    → (set_erdma_installer_version version (set_erdma_installer_version version d)
        ≡ set_erdma_installer_version version d)
      × (driver_name (set_erdma_installer_version version d) ≡ driver_name d)
unfolding set_erdma_installer_version driver_name
set_version_lem version (default_driver v) = (refl, refl)
set_version_lem version (compat_driver v) = (refl, refl)
set_version_lem version ofed_driver = (refl, refl)

use_driver-done :
    {W : Type 0} (version : String) (o : Option Driver) (w w' : W) (d : Driver)
    → use_driver version o w ≡ done d w'
    → (e : Driver) × (o ≡ some e) × (d ≡ set_erdma_installer_version version e)
unfolding use_driver
use_driver-done version none w w' d h = cc
use_driver-done version (some e) w w' d h = (e, refl, ground arith)

use_driver-crash :
    {W : Type 0} (version : String) (o : Option Driver) (w w' : W)
    → use_driver version o w ≡ crash w'
    → o ≡ none
unfolding use_driver
use_driver-crash version none w w' h = refl
use_driver-crash version (some e) w w' h = cc

versioned_name :
    (version : String) (d e : Driver)
    → d ≡ set_erdma_installer_version version e
    → (driver_name d ≡ driver_name e) × (set_erdma_installer_version version d ≡ d)
versioned_name version d e h = let (s, n) = set_version_lem version e in rw h (n, s)

abbrev unnamed : {W : Type 0} → String → Run W String → Run W Driver
unnamed version r =
    branch r (λ out. use_driver version (some ofed_driver))
      (λ e. use_driver version (some (default_driver "")))

unnamed-done :
    {W : Type 0} (version : String) (r : Run W String) (w' : W) (d : Driver)
    → unnamed version r ≡ done d w'
    → ((driver_name d ≡ "ofed") ⊎ (driver_name d ≡ "default"))
      × (set_erdma_installer_version version d ≡ d)
unfolding use_driver driver_name set_erdma_installer_version
unnamed-done version (done out w) w' d h = ground arith
unnamed-done version (fail e w) w' d h = ground arith
unnamed-done version (crash w) w' d h = cc

host_exec-no_crash :
    {W : Type 0} (sh : Shell W) (cmd : String) (w w' : W) → host_exec sh cmd w ≢ crash w'
unfolding host_exec exec_command
host_exec-no_crash sh cmd w w' h = ground arith

unnamed-no_crash :
    {W : Type 0} (version : String) (r : Run W String) (w' : W)
    → ((v : W) → r ≢ crash v)
    → unnamed version r ≢ crash w'
unfolding use_driver
unnamed-no_crash version (done out w) w' k h = cc
unnamed-no_crash version (fail e w) w' k h = cc
unnamed-no_crash version (crash w) w' k h = k w refl

-- Of the drivers for Linux, a name selects the driver of that name, and no name the driver for GPUs
-- or the default one; the driver that is returned has the version set.
pub get_driver_lem :
    {W : Type 0} (sh : Shell W) (name version : String) (w w' : W) (d : Driver)
    → get_driver sh registered name version w ≡ done d w'
    → (((name ≢ "") × (driver_name d ≡ name))
        ⊎ ((name ≡ "") × ((driver_name d ≡ "ofed") ⊎ (driver_name d ≡ "default"))))
      × (set_erdma_installer_version version d ≡ d)
unfolding get_driver registered driver_of register_driver driver_name
get_driver_lem sh name version w w' d h = elim (Bool-cases (str_eq name "")) [
  | inl b ↦
      let (n, v) = unnamed-done version (host_exec sh "which nvidia-smi" w) w' d (rw b at h) in
      (inr ((eq_iff name "").0 b, n), v)
  | inr b ↦
      let (e, o, k) = use_driver-done version (driver_of registered name) w w' d (rw b at h) in
      let (n, v) = versioned_name version d e k in
      (inl (ground (arith, eq_iff name ""), n ∙ driver_of-registered name e o), v)
]

-- Of the drivers for Linux, `get_driver` panics only on a name that none of them has, never without
-- a name.
pub get_driver_panics :
    {W : Type 0} (sh : Shell W) (name version : String) (w w' : W)
    → get_driver sh registered name version w ≡ crash w'
    → (name ≢ "") × (driver_of registered name ≡ none)
unfolding get_driver registered register_driver driver_of use_driver
get_driver_panics sh name version w w' h = elim (Bool-cases (str_eq name "")) [
  | inl b ↦ absurd (
      unnamed-no_crash version (host_exec sh "which nvidia-smi" w) w'
        (host_exec-no_crash sh "which nvidia-smi" w) (rw b at h))
  | inr b ↦ (ground (arith, eq_iff name ""), use_driver-crash version _ w w' (rw b at h))
]
