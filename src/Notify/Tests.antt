-- ===== src/Notify/Tests.antt =====
-- A system that says where to send the message.
use tpm2_autoenroll.Base.{codes, ◌≡◌, refl, some, [], ◌∷◌}
use tpm2_autoenroll.Base.Exec.{◌>>=◌}
use tpm2_autoenroll.Base.Results.{ok}
use tpm2_autoenroll.Notify.{notify_socket, ready_message, target_of, fits, send, notify, ready}
use tpm2_autoenroll.Notify.Once.{TellsOnce, ready-TellsOnce}
use tpm2_autoenroll.Os.{Os, Sys, ask, perform, unset, told, to_abstract}
use tpm2_autoenroll.Os.Failing.{failing}

abbrev systemd : Os
systemd = record (failing (Unit {0})) {
  env_var = λ name w. (some (codes "@ready"), w);
  abstract_addr = λ name w. (ok tt, w);
  datagram_socket = λ w. (ok 7, w);
  sendto = λ fd msg target w. (ok 8, w);
}

abbrev at_boot : Sys systemd
at_boot = record { world = tt; trace = [] }

tells :
    (ready systemd at_boot).1.trace
    ≡ unset notify_socket ∷ told (to_abstract (codes "ready")) ready_message ∷ []
unfolding ready notify send fits target_of ask perform ◌>>=◌ codes
tells = refl

ready-TellsOnce_example : TellsOnce (some (codes "@ready")) [] (ready systemd at_boot).1.trace
unfolding ask
ready-TellsOnce_example = ready-TellsOnce at_boot
