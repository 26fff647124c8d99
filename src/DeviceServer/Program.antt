-- ===== src/DeviceServer/Program.antt =====
-- src/lab3/tools/eie_device_server/main.c: the program of the device server.
use ie0417_dev_b.Base.{ℕ, Option, List, [], ◌++◌, ℤ, pos, is_nonzero, CString, bytes, if◌then◌else◌}
use ie0417_dev_b.Process.{M, pure, ◌>>=◌, ◌>>◌, if_null, print, text}
use ie0417_dev_b.Uthash.{Uthash}
use ie0417_dev_b.Options.{GetoptAnswer, minus_einval, parse_options}
use ie0417_dev_b.DeviceServer.Command.{CjsonText}
use ie0417_dev_b.DeviceServer.CommandManager.{CommandHashEntry}
use ie0417_dev_b.DeviceServer.TransportServer.{Frame, server_exec}

module _ (H : Uthash CommandHashEntry) (J : CjsonText) where
  -- `version` is what `eie_device_version` returns and writes; the arguments after it are those of
  -- `server_exec`. The result is the exit code and the replies.
  unfoldable pub main :
      List GetoptAnswer
      → (cfg_filename : List ℕ) → (version : ℤ × CString) → (created : ℤ) (tid : ℕ)
      → List (Option Frame × ℤ)
      → M (ℤ × List Frame)
  unfolding parse_options print server_exec
  main options cfg_filename (ret, version) created tid requests =
      if_null (parse_options options cfg_filename) (pure (minus_einval, [])) λ c.
        if is_nonzero ret then pure (ret, []) else (do
          print (text (bytes "lib version: " ++ (version ++ bytes "\n")))
          (exec_ret, replies) ← server_exec H J created tid requests
          pure (pos 0, replies))
