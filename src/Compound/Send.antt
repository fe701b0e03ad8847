-- ===== src/Compound/Send.antt =====
-- The end of __handle_cifsd_work of server.c: encryption.
use cifsd.Base.{ℕ, zero, suc, ◌≡◌, refl, true, none}
use cifsd.Compound.{SmbWork, set_smb2_rsp_status}
use cifsd.Compound.Serve.{Server, send}

-- If the answers of a session are to be encrypted and the encryption keeps failing, the worker never
-- leaves the loop, however many turns it is given: the answer with the error is to be encrypted as well.
pub send_never_ends :
    (s : Server)
    → ((w : SmbWork) → s.encrypts w ≡ true)
    → ((w : SmbWork) → (s.encrypt_resp w).0 ≡ true)
    → (fuel : ℕ) (w : SmbWork) → send s fuel w ≡ none
unfolding send
send_never_ends s e f zero w = refl
send_never_ends s e f (suc fuel) w = rw (e (s.finish w)) (
    rw (f (s.finish w))
      (send_never_ends s e f fuel (set_smb2_rsp_status 0xC000003E (s.encrypt_resp (s.finish w)).1)))
