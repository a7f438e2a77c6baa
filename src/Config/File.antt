-- ===== src/Config/File.antt =====
-- NginxConfigParser::Parse over a file name. A stream that was opened on a directory gives no byte.
use dinner_is_servered.Prelude.{[], Option, none, some, Bytes}
use dinner_is_servered.Runtime.Files.{Node, directory, regular, FileSystem, open_in}
use dinner_is_servered.Config.Parser.{Verdict, rejected, parse}

unfoldable pub parse_opened : Option Node → Verdict
parse_opened none = rejected
parse_opened (some directory) = parse []
parse_opened (some (regular content)) = parse content

unfoldable pub parse_file : FileSystem → Bytes → Verdict
parse_file files file_name = parse_opened (open_in files file_name)
