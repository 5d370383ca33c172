-- ===== src/Service/Darwin/Plist.antt =====
-- internal/service/service_darwin.go: the template of the property list, and what it makes of its
-- data. As text/template does, it inserts the fields as they are.
use castle_ops_client.Prelude.{String, List, [], ◌∷◌}
use Prim.Native.String.{◌++◌ as str_append}

pub record PlistData : Type 0 where
  pub label : String
  pub executable : String
  pub arguments : List String
  pub working_directory : String
  pub stdout_path : String
  pub stderr_path : String

abbrev concat_texts : List String → String
concat_texts [] = ""
concat_texts (s ∷ ss) = str_append s (concat_texts ss)

abbrev argument_lines : List String → List String
argument_lines [] = []
argument_lines (a ∷ args) = "\n        <string>" ∷ a ∷ "</string>" ∷ argument_lines args

-- generatePlist; the template always parses, and a string always renders.
unfoldable pub plist : PlistData → String
plist d = concat_texts (
    "<?xml version=\"1.0\" encoding=\"UTF-8\"?>\n"
    ∷ "<!DOCTYPE plist PUBLIC \"-//Apple//DTD PLIST 1.0//EN\" \"http://www.apple.com/DTDs/PropertyList-1.0.dtd\">\n"
    ∷ "<plist version=\"1.0\">\n<dict>\n    <key>Label</key>\n    <string>"
    ∷ d.label
    ∷ "</string>\n\n    <key>ProgramArguments</key>\n    <array>\n        <string>"
    ∷ d.executable
    ∷ "</string>"
    ∷ concat_texts (argument_lines d.arguments)
    ∷ "\n    </array>\n\n    <key>RunAtLoad</key>\n    <true/>\n\n    <key>KeepAlive</key>\n    <dict>\n        <key>SuccessfulExit</key>\n        <false/>\n        <key>Crashed</key>\n        <true/>\n    </dict>\n\n    <key>StandardOutPath</key>\n    <string>"
    ∷ d.stdout_path
    ∷ "</string>\n\n    <key>StandardErrorPath</key>\n    <string>"
    ∷ d.stderr_path
    ∷ "</string>\n\n    <key>WorkingDirectory</key>\n    <string>"
    ∷ d.working_directory
    ∷ "</string>\n\n    <key>EnvironmentVariables</key>\n    <dict>\n        <key>PATH</key>\n        <string>/usr/local/bin:/usr/bin:/bin:/usr/sbin:/sbin</string>\n    </dict>\n\n    <key>ThrottleInterval</key>\n    <integer>10</integer>\n\n    <key>ProcessType</key>\n    <string>Background</string>\n\n    <key>Nice</key>\n    <integer>0</integer>\n</dict>\n</plist>\n"
    ∷ [])
