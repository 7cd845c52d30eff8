-- ===== src/Peer/Tests.antt =====
-- A peer that the check lets through.
use tpm2_autoenroll.Base.{
  if◌then◌else◌, All, Bytes, codes, equal, is_alnum, strip_prefix, ◌<◌, ◌≡◌, refl, true, [], arith,
}
use tpm2_autoenroll.Base.Results.{ok}
use tpm2_autoenroll.AskPw.{split, onto_first}
use tpm2_autoenroll.Os.{Os, Sys}
use tpm2_autoenroll.Os.Failing.{failing}
use tpm2_autoenroll.Peer.{
  in_unit, unit_of, unit_escape, escape_byte, escape_rest, find_prefixed, lines, ended_lines,
  without_return, last_component, last_of, peer_pidfd, expected_systemd_binary,
}
use tpm2_autoenroll.Peer
use tpm2_autoenroll.Peer.Escape.{in_unit-unit_of}

abbrev root : Bytes
root = codes "root"

abbrev cgroup : Bytes
cgroup = codes "0::/system.slice/systemd-cryptsetup@root.service\n"

-- The peer is process 42, of root.
abbrev linux : Os
linux = record (failing (Unit {0})) {
  peer_cred = λ fd w. (ok (0, 42), w);
  peer_pidfd = λ fd w. (ok 7, w);
  pidfd_signal = λ fd w. (ok tt, w);
  read_text = λ path w.
      (ok (if equal path (codes "/proc/self/fdinfo/7") then codes "Pid:\t42\n" else cgroup), w);
  read_link = λ path w. (ok expected_systemd_binary, w);
}

abbrev at_boot : Sys linux
at_boot = record { world = tt; trace = [] }

placed : in_unit cgroup (unit_of root) ≡ true
unfolding in_unit unit_of unit_escape escape_byte escape_rest find_prefixed lines ended_lines
    without_return last_component last_of split onto_first strip_prefix equal codes is_alnum
placed = refl

small : All (λ b. b < 256) root
unfolding codes
small = omega arith

in_unit-unit_of_example : root ≡ root
in_unit-unit_of_example = in_unit-unit_of cgroup root root small small placed placed
