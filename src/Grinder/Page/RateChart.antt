-- ===== src/Grinder/Page/RateChart.antt =====
-- `__HTML_RATE_CHART` of mig/analyser/grinder.py: the template of the chart of the receiving rate by the sending rate.
use dnstools.Prelude.{◌∷◌, []}
use dnstools.Chart.{Text}
use dnstools.Strings.{lines}

unfoldable pub html_rate_chart : Text
unfolding lines
html_rate_chart = lines (
    "<div style=\"font-family:arial; font-size:75%%; min-width: 310px; margin: 0 auto\">"
    ∷ "      <h1 style=\"center\">Receiving vs Sending</h1>" ∷ "    </div>"
    ∷ "    <svg id=\"rate\" style=\"min-width: 310px; height: 700px; margin: 0 auto\"></svg>"
    ∷ "    <div style=\"font-family:arial; font-size:75%%; min-width: 310px; margin: 0 auto\">"
    ∷ "      Sending&nbsp;<sub>min</sub>:&nbsp;<input id=\"rateXMin\"/>;"
    ∷ "      Sending&nbsp;<sub>max</sub>:&nbsp;<input id=\"rateXMax\"/>;"
    ∷ "      Receiving&nbsp;<sub>min</sub>:&nbsp;<input id=\"rateYMin\"/>;"
    ∷ "      Receiving&nbsp;<sub>max</sub>:&nbsp;<input id=\"rateYMax\"/>;"
    ∷ "      <button onclick=\"applyRateDomains()\">Apply</button>"
    ∷ "      <button onclick=\"resetRateDomains()\">Reset</button>" ∷ "    </div>" ∷ "    <script>"
    ∷ "      var rateData = [%s, %s]" ∷ "" ∷ "      var rateChart"
    ∷ "      var rateXMin = document.getElementById(\"rateXMin\"),"
    ∷ "          rateXMax = document.getElementById(\"rateXMax\"),"
    ∷ "          rateYMin = document.getElementById(\"rateYMin\"),"
    ∷ "          rateYMax = document.getElementById(\"rateYMax\")" ∷ ""
    ∷ "      var applyRateDomains = function() {"
    ∷ "        rateChart.xDomain([rateXMin.value, rateXMax.value])"
    ∷ "        rateChart.yDomain([rateYMin.value, rateYMax.value])" ∷ "        rateChart.update()"
    ∷ "      }" ∷ "" ∷ "      var resetRateDomains = function() {"
    ∷ "        rateChart.xDomain(null)" ∷ "        rateChart.yDomain(null)"
    ∷ "        rateChart.update()" ∷ "      }" ∷ "" ∷ "      nv.addGraph({"
    ∷ "        generate: function() {" ∷ "          var svg = d3.select('#rate')"
    ∷ "          rateChart = nv.models.lineChart()" ∷ "          rateChart"
    ∷ "            .width(svg.attr('width'))" ∷ "            .dispatch.on('renderEnd', function(){"
    ∷ "              var xDomain = rateChart.xAxis.domain(),"
    ∷ "                  yDomain = rateChart.yAxis.domain()"
    ∷ "              rateXMin.value = xDomain[0]" ∷ "              rateXMax.value = xDomain[1]"
    ∷ "              rateYMin.value = yDomain[0]" ∷ "              rateYMax.value = yDomain[1]"
    ∷ "            })" ∷ "" ∷ "          rateChart.xAxis"
    ∷ "            .axisLabel(\"Sending, QpS\")" ∷ "            .showMaxMin(false)" ∷ ""
    ∷ "          rateChart.yAxis" ∷ "            .axisLabel(\"Receiving, QpS\")"
    ∷ "            .showMaxMin(false)" ∷ "" ∷ "          svg.datum(rateData).call(rateChart)" ∷ ""
    ∷ "          return rateChart" ∷ "        }," ∷ "        callback: function(graph) {"
    ∷ "            window.onresize = function() {" ∷ "                var svg = d3.select('#rate')"
    ∷ "                graph.width(svg.attr('width'))" ∷ "                svg.call(graph)"
    ∷ "            };" ∷ "        }" ∷ "      })" ∷ "    </script>" ∷ [])
