-- ===== src/Grinder/Page/Shell.antt =====
-- `__HTML` of mig/analyser/grinder.py: the template of the page around the charts.
use dnstools.Prelude.{◌∷◌, []}
use dnstools.Chart.{Text}
use dnstools.Strings.{lines}

unfoldable pub html : Text
unfolding lines
html = lines (
    "<!DOCTYPE HTML>" ∷ "<html>" ∷ "  <head>"
    ∷ "    <meta http-equiv=\"Content-Type\" content=\"text/html; charset=utf-8\">"
    ∷ "    <title>DNS Queries - %(title)s</title>" ∷ "    <style>" ∷ "      %(style)s"
    ∷ "    </style>" ∷ "    <script>" ∷ "      %(d3)s" ∷ "    </script>" ∷ "    <script>"
    ∷ "      %(nvd3)s" ∷ "    </script>" ∷ "  </head>" ∷ "  <body>" ∷ "    %(charts)s" ∷ "  </body>"
    ∷ "</html>" ∷ [])
