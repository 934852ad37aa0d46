-- ===== src/Grinder/Page/RatesChart.antt =====
-- `__HTML_RATES_CHART` of mig/analyser/grinder.py: the template of the chart of the rates.
use dnstools.Prelude.{◌∷◌, []}
use dnstools.Chart.{Text}
use dnstools.Strings.{lines}

unfoldable pub html_rates_chart : Text
unfolding lines
html_rates_chart = lines (
    "<div style=\"font-family:arial; font-size:75%%; min-width: 310px; margin: 0 auto\">"
    ∷ "      <h1>Rates</h1>" ∷ "    </div>"
    ∷ "    <svg id=\"rates\" style=\"min-width: 310px; height: 700px; margin: 0 auto\"></svg>"
    ∷ "    <div style=\"font-family:arial; font-size:75%%; min-width: 310px; margin: 0 auto\">"
    ∷ "      Rate&nbsp;<sub>min</sub>:&nbsp;<input id=\"ratesYMin\"/>;"
    ∷ "      Rate&nbsp;<sub>max</sub>:&nbsp;<input id=\"ratesYMax\"/>;"
    ∷ "      <button onclick=\"applyRatesDomains()\">Apply</button>"
    ∷ "      <button onclick=\"resetRatesDomains()\">Reset</button>" ∷ "    </div>" ∷ "    <script>"
    ∷ "      var ratesData = %s" ∷ "" ∷ "      var ratesChart"
    ∷ "      var ratesYMin = document.getElementById(\"ratesYMin\"),"
    ∷ "          ratesYMax = document.getElementById(\"ratesYMax\")" ∷ ""
    ∷ "      var applyRatesDomains = function() {"
    ∷ "        ratesChart.yDomain([ratesYMin.value, ratesYMax.value])"
    ∷ "        ratesChart.update()" ∷ "      }" ∷ "" ∷ "      var resetRatesDomains = function() {"
    ∷ "        ratesChart.yDomain(null)" ∷ "        ratesChart.update()" ∷ "      }" ∷ ""
    ∷ "      nv.addGraph({" ∷ "        generate: function() {"
    ∷ "          var svg = d3.select('#rates')"
    ∷ "          ratesChart = nv.models.lineWithFocusChart()" ∷ "          ratesChart"
    ∷ "            .width(svg.attr('width'))" ∷ "            .dispatch.on('renderEnd', function(){"
    ∷ "              var yDomain = ratesChart.yAxis.domain()"
    ∷ "              ratesYMin.value = yDomain[0]" ∷ "              ratesYMax.value = yDomain[1]"
    ∷ "            })" ∷ "" ∷ "          ratesChart.xAxis" ∷ "            .axisLabel(\"time, ms\")"
    ∷ "            .showMaxMin(false)" ∷ "" ∷ "          ratesChart.yAxis"
    ∷ "            .axisLabel(\"Rate, QpS\")" ∷ "            .showMaxMin(false)" ∷ ""
    ∷ "          svg.datum(ratesData).call(ratesChart)" ∷ "" ∷ "          return ratesChart"
    ∷ "        }," ∷ "        callback: function(graph) {"
    ∷ "            window.onresize = function() {" ∷ "                var svg = d3.select('#rates')"
    ∷ "                graph.width(svg.attr('width'))" ∷ "                svg.call(graph)"
    ∷ "            };" ∷ "        }" ∷ "      })" ∷ "    </script>" ∷ [])
