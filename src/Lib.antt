-- ===== src/Lib.antt =====
-- The analysers of mig, the DNS load generator: the Python programs of mig/analyser, which read the
-- timestamps that the probe has measured and chart them (grinder.py), fit a line to them (fit.py), and
-- choose the next rate of a search for the highest rate without loss (preview.py).
--
-- How the parts interact: `main` of grinder.py lists the inputs (`enumerate_inputs`), orders and labels
-- them by speed, reads each file (`jload`), and draws for each one the number of messages over time
-- (`make_count`), their rate (`make_rate`), the delays of the answers (`make_processing`) and the queries
-- in the air (`make_queue`), with lines fitted to the counts (`calculate_fit`, `make_fit`). fit.py and
-- preview.py have a shorter `jload` and a copy of `calculate_fit`, and one `main` each.
--
-- Which file models which part:
--   Prelude             integers by sign, tests, slices, exceptions as results, the stable sort
--   Chart               points, series and the numbers in them; the interface of Python's floats
--   Strings             the string operations of the source: strip, lower, split, int, %d, and `%` on
--                       templates
--   Dump                `jload` of grinder.py: the members of the parsed JSON object
--   LinearFit           `calculate_fit` and `make_fit`, over an arbitrary `leastsq`
--   Preview             `jload`, `rate_round` and `main` of mig/analyser/preview.py
--   FitTool             `jload` and `main` of mig/analyser/fit.py
--   Grinder/Counts      `make_count`             Grinder/Rates    `make_rate`
--   Grinder/Queue       `make_queue`             Grinder/Processing  `make_processing`,
--                                                `make_total_processing`
--   Grinder/Load        `load`, the reader of the text format, as a state machine over the lines
--   Grinder/Inputs      `enumerate_inputs`, and the labels of `main`
--   Grinder/Report      the body of the loop of `main`: what it adds, and when it raises
--   Grinder/Main        `main` as a whole, up to the charts
--   Grinder/Page        the templates, and the page that `main` fills with the charts
--   Examples            tests, and the theorems at concrete inputs
-- All of these but Preview and FitTool are about mig/analyser/grinder.py. A function of the source has
-- the name it has there; a module below that of a function holds its theorems. Python's exceptions are
-- the type `Error`, and a function that can raise returns a `Result`. An integer is a `ℤ` with no bound,
-- as in Python; division of lengths is that of Python 2, on natural numbers.
--
-- What the repository does not contain is an argument: the floats (`Floats`, with the laws that a
-- theorem needs as hypotheses, met by thousandths in Examples/Thousandths), `scipy.optimize.leastsq`
-- (`Solver`), the opening and parsing of files, `json.loads`, `json.dumps`, the file system, and the
-- printing of a float. So are the copies of d3 and nvd3 that the page includes. The loop of
-- `rate_round` runs on fuel: one step for each decimal place that it removes, so one more than their
-- number is enough. `decimal_digits` has the number itself as fuel. Every other loop is over a list.
--
-- Not modelled: the command line, the printed lines and the writing of the page, what the scripts in the
-- templates do (the templates are texts here), d3 and nvd3, and the programs in C and Go (mig/probe,
-- dnstest, mem), which are in other languages.
pub mod Prelude
pub mod Chart
pub mod Strings
pub mod Dump
pub mod LinearFit
pub mod Preview
pub mod FitTool
pub mod Grinder
mod Examples
