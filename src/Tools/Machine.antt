-- ===== src/Tools/Machine.antt =====
-- pkg/tools/env.go: what the process asks of its machine.
use winchaos.Base.{
  String, Bool, true, false, ◌||◌, List, [], ◌∷◌, Option, none, some, ◌==◌, if◌then◌else◌, split,
}
use winchaos.Base.Exec.{Result, value, failure}

-- Of `runtime.GOOS`.
unfoldable pub is_unix : String → Bool
is_unix goos = goos == "linux" || goos == "darwin"

unfoldable pub is_windows : String → Bool
is_windows goos = goos == "windows"

unfoldable pub is_darwin : String → Bool
is_darwin goos = goos == "darwin"

unfoldable pub is_public_env : String → Bool
is_public_env region_id = "cn-public" == region_id

-- Of `user.Current`.
unfoldable pub get_user_home : Result String → String
get_user_home (value home_dir) = home_dir
get_user_home (failure x) = "/root"

-- `CheckEnvironment`: whether the process goes on.
unfoldable pub check_environment : String → Bool
unfolding is_windows
check_environment goos = if is_windows goos then false else true

abbrev first_part : List String → String
first_part [] = ""
first_part (p ∷ ps) = p

-- The bytes of /proc/uptime, where the command has failed.
abbrev from_file : Result String → String
from_file (failure x) = ""
from_file (value bytes) = if bytes == "" then "" else first_part (split b' ' bytes)

-- What the command `uptime` prints, with its error; and the file.
unfoldable pub get_uptime : String × Option String → Result String → String
unfolding split
get_uptime (output, some x) file = from_file file
get_uptime (output, none) file = if output == "" then "" else first_part (split b',' output)
