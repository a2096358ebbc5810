-- ===== src/CsrLists/Tests.antt =====
-- Two CSRs of the lists.
use lib_checkpoint.Common.{ℕ, ◌≡◌, refl}
use lib_checkpoint.CsrLists.Agree.{csrs_agree}

abbrev mstatus : ℕ
mstatus = 0x300

csrs_agree_example : mstatus ≡ 0x300
csrs_agree_example = csrs_agree "mstatus" 0x300 0x300 refl refl
