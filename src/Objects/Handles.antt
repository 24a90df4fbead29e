-- ===== src/Objects/Handles.antt =====
-- hsm_generate_object_handle of hsm/src/utils/utils.c.
use pst_boitier_pki.Common.{ℕ, ◌^◌, ◌≢◌, ◌<◌, arith}
use pst_boitier_pki.Objects.{hsm_generate_object_handle}

-- While the counter is below 2^28, two handles are different as soon as their counters are,
-- whatever the types.
pub generate_object_handle-distinct :
    (t t' counter counter' : ℕ)
    → counter < 2 ^ 28
    → counter' < 2 ^ 28
    → counter ≢ counter'
    → (hsm_generate_object_handle t counter).0 ≢ (hsm_generate_object_handle t' counter').0
unfolding hsm_generate_object_handle
generate_object_handle-distinct t t' counter counter' a b ne = ground arith
