-- ===== src/Types/Caps.antt =====
-- ERdmaCAP of internal/types/eri.go: a bit set of capabilities and its text.
use alibabacloud_erdma_contr.Prelude.{
  ℕ, ◌/◌, ◌%◌, Bool, not, String, List, [], ◌∷◌, ◌==◌, if◌then◌else◌,
}

abbrev pub erdma_cap_rdma_cm : ℕ
erdma_cap_rdma_cm = 1

abbrev pub erdma_cap_smc_r : ℕ
erdma_cap_smc_r = 2

abbrev pub erdma_cap_verbs : ℕ
erdma_cap_verbs = 4

abbrev pub erdma_cap_gdr : ℕ
erdma_cap_gdr = 8

abbrev pub erdma_cap_oob : ℕ
erdma_cap_oob = 16

-- `cap & bit != 0`, for a bit that is a power of two.
unfoldable pub has_cap : ℕ → ℕ → Bool
has_cap caps bit = not (caps / bit % 2 == 0)

abbrev named : Bool → String → List String → List String
named b s rest = if b then s ∷ rest else rest

-- The names that `String` joins by commas.
unfoldable pub cap_slice : ℕ → List String
unfolding has_cap
cap_slice caps = named (has_cap caps erdma_cap_rdma_cm) "RDMA_CM" (
    named (has_cap caps erdma_cap_smc_r) "SMC_R" (
      named (has_cap caps erdma_cap_verbs) "VERBS"
        (named (has_cap caps erdma_cap_gdr) "GDR" (named (has_cap caps erdma_cap_oob) "OOB" []))))
