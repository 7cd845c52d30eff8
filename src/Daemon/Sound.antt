-- ===== src/Daemon/Sound.antt =====
-- Whatever the daemon sends in its life was asked for and tested.
use tpm2_autoenroll.Base.{ℕ, List}
use tpm2_autoenroll.Daemon.{Listener, serve}
use tpm2_autoenroll.Daemon.Justified.{Justified, Justified-IsCourse, handle-Justified}
use tpm2_autoenroll.Daemon.Keeps.{serve-Keeps}
use tpm2_autoenroll.Json.{Json}
use tpm2_autoenroll.Os.{Os, Sys}
use tpm2_autoenroll.Serve.Reply.{IsSound}

module _ (os : Os) (json : Json) (fuel : ℕ) (listeners : List Listener) where
  -- Over the whole life of the daemon, whatever its peers, agents, disks and signals do: it is cut into
  -- stretches in which no connection is sent anything, and contacts. In a contact a connection that was
  -- accepted on a listener's socket asked for the plain phase of that listener's volume, and its peer
  -- was found to be who unlocks it; it is sent a start of the passphrase that the last test before
  -- found correct, or all of it. At the end the cache holds validated passphrases only, each once.
  pub serve-Justified :
      (n : ℕ) (s : Sys os)
      → Justified os json fuel listeners s (serve os json fuel n listeners s).1
        × IsSound os (serve os json fuel n listeners s).0.1.memory
  serve-Justified =
      serve-Keeps os json fuel listeners (Justified os json fuel listeners)
        (Justified-IsCourse os json fuel listeners) (handle-Justified os json fuel listeners)
