-- ===== src/Grinder/Page/RunChart.antt =====
-- `__HTML_RUN_CHART` of mig/analyser/grinder.py: the template of the chart of the rates by speed.
use dnstools.Prelude.{◌∷◌, []}
use dnstools.Chart.{Text}
use dnstools.Strings.{lines}

unfoldable pub html_run_chart : Text
unfolding lines
html_run_chart = lines (
    "<div style=\"font-family:arial; font-size:75%%; min-width: 310px; margin: 0 auto\">"
    ∷ "      <h1 style=\"center\">Rate by Run</h1>" ∷ "    </div>"
    ∷ "    <svg id=\"run\" style=\"min-width: 310px; height: 700px; margin: 0 auto\"></svg>"
    ∷ "    <div style=\"font-family:arial; font-size:75%%; min-width: 310px; margin: 0 auto\">"
    ∷ "      Run&nbsp;<sub>min</sub>:&nbsp;<input id=\"runXMin\"/>;"
    ∷ "      Run&nbsp;<sub>max</sub>:&nbsp;<input id=\"runXMax\"/>;"
    ∷ "      Rate&nbsp;<sub>min</sub>:&nbsp;<input id=\"runYMin\"/>;"
    ∷ "      Rate&nbsp;<sub>max</sub>:&nbsp;<input id=\"runYMax\"/>;"
    ∷ "      <button onclick=\"applyRunDomains()\">Apply</button>"
    ∷ "      <button onclick=\"resetRunDomains()\">Reset</button>" ∷ "    </div>" ∷ "    <script>"
    ∷ "      var runData = [%s, %s]" ∷ "" ∷ "      var runChart"
    ∷ "      var runXMin = document.getElementById(\"runXMin\"),"
    ∷ "          runXMax = document.getElementById(\"runXMax\"),"
    ∷ "          runYMin = document.getElementById(\"runYMin\"),"
    ∷ "          runYMax = document.getElementById(\"runYMax\")" ∷ ""
    ∷ "      var applyRunDomains = function() {"
    ∷ "        runChart.xDomain([runXMin.value, runXMax.value])"
    ∷ "        runChart.yDomain([runYMin.value, runYMax.value])" ∷ "        runChart.update()"
    ∷ "      }" ∷ "" ∷ "      var resetRunDomains = function() {" ∷ "        runChart.xDomain(null)"
    ∷ "        runChart.yDomain(null)" ∷ "        runChart.update()" ∷ "      }" ∷ ""
    ∷ "      nv.addGraph({" ∷ "        generate: function() {"
    ∷ "          var svg = d3.select('#run')" ∷ "          runChart = nv.models.lineChart()"
    ∷ "          runChart" ∷ "            .width(svg.attr('width'))"
    ∷ "            .dispatch.on('renderEnd', function(){"
    ∷ "              var xDomain = runChart.xAxis.domain(),"
    ∷ "                  yDomain = runChart.yAxis.domain()"
    ∷ "              runXMin.value = xDomain[0]" ∷ "              runXMax.value = xDomain[1]"
    ∷ "              runYMin.value = yDomain[0]" ∷ "              runYMax.value = yDomain[1]"
    ∷ "            })" ∷ "" ∷ "          runChart.xAxis" ∷ "            .axisLabel(\"Run\")"
    ∷ "            .showMaxMin(false)" ∷ "" ∷ "          runChart.yAxis"
    ∷ "            .axisLabel(\"Rate, QpS\")" ∷ "            .showMaxMin(false)" ∷ ""
    ∷ "          svg.datum(runData).call(runChart)" ∷ "" ∷ "          return runChart"
    ∷ "        }," ∷ "        callback: function(graph) {"
    ∷ "            window.onresize = function() {" ∷ "                var svg = d3.select('#run')"
    ∷ "                graph.width(svg.attr('width'))" ∷ "                svg.call(graph)"
    ∷ "            };" ∷ "        }" ∷ "      })" ∷ "    </script>" ∷ [])
