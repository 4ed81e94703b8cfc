-- ===== src/Net/Mtu.antt =====
-- internal/drivers/mtu.go: the MTU of an interface with jumbo frames.
use alibabacloud_erdma_contr.Prelude.{zero, suc, ℤ, pos, negsuc}
use alibabacloud_erdma_contr.Types.{Eri}

abbrev pub default_jumbo_frame_mtu : ℤ
default_jumbo_frame_mtu = pos 8500

abbrev pub or_default : ℤ → ℤ
or_default (pos zero) = default_jumbo_frame_mtu
or_default (pos (suc n)) = pos (suc n)
or_default (negsuc n) = default_jumbo_frame_mtu

unfoldable pub jumbo_mtu : Eri → ℤ
jumbo_mtu eri = or_default eri.jumbo_frame_mtu

abbrev pub IsPositive : ℤ → Type 0
IsPositive (pos zero) = ⊥
IsPositive (pos (suc n)) = Unit {0}
IsPositive (negsuc n) = ⊥

pub or_default-IsPositive : (mtu : ℤ) → IsPositive (or_default mtu)
or_default-IsPositive (pos zero) = tt
or_default-IsPositive (pos (suc n)) = tt
or_default-IsPositive (negsuc n) = tt
