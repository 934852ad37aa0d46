-- ===== src/Grinder/Page/CountsChart.antt =====
-- `__HTML_COUNTS_CHART` of mig/analyser/grinder.py: the template of the chart of the counts.
use dnstools.Prelude.{◌∷◌, []}
use dnstools.Chart.{Text}
use dnstools.Strings.{lines}

unfoldable pub html_counts_chart : Text
unfolding lines
html_counts_chart = lines (
    "<div style=\"font-family:arial; font-size:75%%; min-width: 310px; margin: 0 auto\">"
    ∷ "      <h1>Queries Count</h1>" ∷ "    </div>"
    ∷ "    <svg id=\"counts\" style=\"min-width: 310px; height: 700px; margin: 0 auto\"></svg>"
    ∷ "    <div style=\"font-family:arial; font-size:75%%; min-width: 310px; margin: 0 auto\">"
    ∷ "      count&nbsp;<sub>min</sub>:&nbsp;<input id=\"countsYMin\"/>;"
    ∷ "      count&nbsp;<sub>max</sub>:&nbsp;<input id=\"countsYMax\"/>;"
    ∷ "      <button onclick=\"applyCountsDomains()\">Apply</button>"
    ∷ "      <button onclick=\"resetCountsDomains()\">Reset</button>" ∷ "    </div>"
    ∷ "    <script>" ∷ "      var countsData = %s" ∷ "" ∷ "      var countsChart"
    ∷ "      var countsYMin = document.getElementById(\"countsYMin\"),"
    ∷ "          countsYMax = document.getElementById(\"countsYMax\")" ∷ ""
    ∷ "      var applyCountsDomains = function() {"
    ∷ "        countsChart.yDomain([countsYMin.value, countsYMax.value])"
    ∷ "        countsChart.update()" ∷ "      }" ∷ ""
    ∷ "      var resetCountsDomains = function() {" ∷ "        countsChart.yDomain(null)"
    ∷ "        countsChart.update()" ∷ "      }" ∷ "" ∷ "      nv.addGraph({"
    ∷ "        generate: function() {" ∷ "          var svg = d3.select('#counts')"
    ∷ "          countsChart = nv.models.lineWithFocusChart()" ∷ "          countsChart"
    ∷ "            .width(svg.attr('width'))" ∷ "            .dispatch.on('renderEnd', function(){"
    ∷ "              var yDomain = countsChart.yAxis.domain()"
    ∷ "              countsYMin.value = yDomain[0]" ∷ "              countsYMax.value = yDomain[1]"
    ∷ "            })" ∷ "" ∷ "          countsChart.xAxis" ∷ "            .axisLabel(\"time, ms\")"
    ∷ "            .showMaxMin(false)" ∷ "" ∷ "          countsChart.yAxis"
    ∷ "            .axisLabel(\"count\")" ∷ "            .showMaxMin(false)" ∷ ""
    ∷ "          svg.datum(countsData).call(countsChart)" ∷ "" ∷ "          return countsChart"
    ∷ "        }," ∷ "        callback: function(graph) {"
    ∷ "            window.onresize = function() {"
    ∷ "                var svg = d3.select('#counts')"
    ∷ "                graph.width(svg.attr('width'))" ∷ "                svg.call(graph)"
    ∷ "            };" ∷ "        }" ∷ "      })" ∷ "    </script>" ∷ [])
