-- ===== src/Os/Failing.antt =====
-- A system on which every call fails: the one that the systems of the tests are variants of.
use tpm2_autoenroll.Base.{false, none, []}
use tpm2_autoenroll.Base.Results.{err}
use tpm2_autoenroll.Os.{Os, timed_out}

abbrev pub failing : Type 0 → Os
failing W = record {
  World = W;
  open_file = λ path w. (err 2, w);
  file_type = λ fd w. (err 9, w);
  exists = λ path w. (false, w);
  read_text = λ path w. (err 2, w);
  read_link = λ path w. (err 2, w);
  read_dir = λ path w. (err 2, w);
  lstat = λ path w. (err 2, w);
  mkdir = λ path mode w. (err 13, w);
  chmod = λ path mode w. (err 13, w);
  unlink = λ path w. (err 2, w);
  write_all = λ fd msg w. (err 9, w);
  write = λ fd msg w. (err 9, w);
  pwrite = λ fd msg at w. (err 9, w);
  ftruncate = λ fd size w. (err 9, w);
  poll = λ fd timeout w. (timed_out, w);
  read = λ fd max w. (err 9, w);
  memfd_create = λ w. (err 12, w);
  socket = λ w. (err 24, w);
  socket_addr = λ path w. (err 36, w);
  bind = λ fd path w. (err 98, w);
  listen = λ fd backlog w. (err 9, w);
  poll_listeners = λ fds w. (err 9, w);
  accept = λ fd w. (err 11, w);
  peer_name = λ fd w. (err 107, w);
  peer_cred = λ fd w. (err 107, w);
  peer_pidfd = λ fd w. (err 92, w);
  pidfd_signal = λ fd w. (err 3, w);
  spawn = λ cmd timeout w. (err 2, w);
  kill = λ w. w;
  terminate = λ w. (false, w);
  seconds = λ w. (0, w);
  args = λ w. ([], w);
  print = λ text w. (err 32, w);
  mlockall = λ w. (err 12, w);
  forbid_dumps = λ w. (err 22, w);
  signal = λ number w. (err 22, w);
  env_var = λ name w. (none, w);
  remove_var = λ name w. (tt, w);
  abstract_addr = λ name w. (err 36, w);
  datagram_socket = λ w. (err 24, w);
  sendto = λ fd msg target w. (err 9, w);
}
